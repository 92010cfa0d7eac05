-- ===== src/Settlement/Tests/Runs.antt =====
-- Runs of the service: instances of the theorems on its operations.
use movra.Prelude.{◌≡◌, refl, inl, some, ne_of_test, List, [], ◌∷◌}
use movra.Settlement.Model.{pending, processing, failed}
use movra.Settlement.Service.{initiate_payout, retry_payout, cancel_payout}
use movra.Settlement.Service.Confined.{Confined}
use movra.Settlement.Service.Operations.{
  Effect, started, initiate_payout-Confined, retry_payout-Effect, cancel_payout-Effect,
}
use movra.Settlement.Service.Requests.{
  Request, initiate, retry, cancel, serve, AllSound, AllSound-IsKeyed, serve-AllSound,
}
use movra.Settlement.Service.Refusals.{
  Refused, retry_payout-Refused, cancel_payout-Refused, serve-closed,
}
use movra.Settlement.Service.Settled.{Fulfils}
use movra.Settlement.Service.Reliable.{Yields, asked, initiate_payout-Yields}
use movra.Settlement.Grpc
use movra.Settlement.Grpc.Reported.{Named, GetReply, RetryReply, CancelReply, requests-Reported}
use movra.Settlement.Tests.{
  deployment, steady_deployment, empty_world, holding, order, refused_payout, stuck_payout,
  payout_7-admitted, holding-stored, refused-AllSound, stuck-AllSound, steady-IsReliable,
}

abbrev requests : List Request
requests =
    initiate order ∷ retry "payout_7" ∷ cancel "payout_7" "no longer needed" ∷ initiate order ∷ []

serve-AllSound_example :
    AllSound deployment (serve deployment.service requests (holding refused_payout))
serve-AllSound_example =
    serve-AllSound deployment requests (holding refused_payout)
      (tt, (payout_7-admitted, (payout_7-admitted, (tt, tt)))) refused-AllSound

abbrev follow_ups : List Request
follow_ups = retry "payout_7" ∷ cancel "payout_7" "stuck" ∷ retry "payout_7" ∷ []

serve-closed_example :
    deployment.stored (serve deployment.service follow_ups (holding stuck_payout)) "payout_7"
    ≡ some stuck_payout
serve-closed_example =
    serve-closed deployment follow_ups "payout_7" (holding stuck_payout) stuck_payout
      (payout_7-admitted, (payout_7-admitted, (payout_7-admitted, tt))) payout_7-admitted
      stuck-AllSound (ne_of_test processing pending refl, ne_of_test processing failed refl)
      (holding-stored stuck_payout)

initiate_payout-Yields_example :
    Yields steady_deployment steady-IsReliable
      (Fulfils order (steady_deployment.service.runtime.now empty_world).0 (
        asked steady_deployment steady-IsReliable
          (started steady_deployment order empty_world)
          (steady_deployment.service.repo.save_payout
            (started steady_deployment order empty_world)
            (steady_deployment.service.runtime.now empty_world).1).1))
      (initiate_payout steady_deployment.service order empty_world)
initiate_payout-Yields_example =
    initiate_payout-Yields steady_deployment steady-IsReliable order empty_world

initiate_payout-Confined_example :
    Confined deployment.service.max_retries deployment.IsPayoutId deployment.stored empty_world
      (started deployment order empty_world)
      (initiate_payout deployment.service order empty_world).1
initiate_payout-Confined_example = initiate_payout-Confined deployment order empty_world

retry_payout-Effect_example :
    Effect deployment "payout_7"
      (holding refused_payout)
      (retry_payout deployment.service "payout_7" (holding refused_payout)).1
retry_payout-Effect_example =
    retry_payout-Effect deployment "payout_7" (holding refused_payout)
      (AllSound-IsKeyed deployment (holding refused_payout) refused-AllSound) payout_7-admitted

cancel_payout-Effect_example :
    Effect deployment "payout_7"
      (holding refused_payout)
      (cancel_payout deployment.service "payout_7" "changed" (holding refused_payout)).1
cancel_payout-Effect_example =
    cancel_payout-Effect deployment "payout_7" "changed" (holding refused_payout)
      (AllSound-IsKeyed deployment (holding refused_payout) refused-AllSound) payout_7-admitted

retry_payout-Refused_example :
    Refused deployment
      (holding stuck_payout)
      (retry_payout deployment.service "payout_7" (holding stuck_payout))
retry_payout-Refused_example =
    retry_payout-Refused deployment "payout_7" (holding stuck_payout) stuck_payout
      (holding-stored stuck_payout) (inl (ne_of_test processing failed refl))

cancel_payout-Refused_example :
    Refused deployment
      (holding stuck_payout)
      (cancel_payout deployment.service "payout_7" "stuck" (holding stuck_payout))
cancel_payout-Refused_example =
    cancel_payout-Refused deployment "payout_7" "stuck" (holding stuck_payout) stuck_payout
      (holding-stored stuck_payout) (ne_of_test processing pending refl)
      (ne_of_test processing failed refl)

requests-Reported_example :
    Named deployment "payout_7"
      (holding refused_payout)
      (GetReply deployment "payout_7" (holding refused_payout))
      (Grpc.get_payout deployment.service "payout_7" (holding refused_payout))
    × (Named deployment "payout_7"
          (holding refused_payout)
          (RetryReply deployment "payout_7" (holding refused_payout))
          (Grpc.retry_payout deployment.service "payout_7" (holding refused_payout))
        × Named deployment "payout_7"
            (holding refused_payout)
            (CancelReply deployment "payout_7" "changed" (holding refused_payout))
            (Grpc.cancel_payout deployment.service "payout_7" "changed" (holding refused_payout)))
requests-Reported_example =
    requests-Reported deployment "payout_7" "changed" (holding refused_payout)
      (AllSound-IsKeyed deployment (holding refused_payout) refused-AllSound) payout_7-admitted
