-- ===== src/Platform/Json.antt =====
-- What the services use of `encoding/json`: objects as trees of named fields, with the printing of
-- the tree left out. A time is a leaf, since it is printed and read back whole; `F` is the type of
-- the numbers that are no integers. A field is found by its exact name, the first time it stands:
-- the services read what they have written (the events, which another program writes, are read by
-- Settlement/Kafka/Events).
use movra.Prelude.{
  String, ◌≡◌, refl, Bool, false, Bool-cases, inl, inr, sym, ap, Option, none, some, eq_iff, arith,
  if◌then◌else◌, ◌==◌,
}
use movra.Prelude.Int.{ℤ, pos}
use movra.Prelude.Action.{Result, ok, err}
use movra.Platform.Time.{Time, zero_time}

-- The error on a value of another type than the variable's.
abbrev pub mismatch {ℓ} : {A : Type ℓ} → Result A
mismatch = err "json: cannot unmarshal"

mutual
  pub data Json (F : Type 0) : Type 0 where
    null : Json F
    str : String → Json F
    int : ℤ → Json F
    float : F → Json F
    bool : Bool → Json F
    time : Time → Json F
    object : Fields F → Json F

  pub data Fields (F : Type 0) : Type 0 where
    end : Fields F
    field : String → Json F → Fields F → Fields F

module _ {F : Type 0} where
  -- A field with `omitempty`: left out if it has the zero value of its type.
  unfoldable pub omit_text : String → String → Fields F → Fields F
  omit_text k s rest = if s == "" then rest else field k (str s) rest

  -- A `*time.Time` with `omitempty`.
  unfoldable pub omit_time : String → Option Time → Fields F → Fields F
  omit_time k none rest = rest
  omit_time k (some t) rest = field k (time t) rest

  -- The value of a field, `null` if there is none: Go leaves the target as it is in both cases.
  unfoldable pub find : String → Fields F → Json F
  find k end = null
  find k (field j v rest) = if j == k then v else find k rest

  -- Values read into a variable that has the zero value of its type.
  abbrev pub to_text : Json F → Result String
  to_text null = ok ""
  to_text (str s) = ok s
  to_text _ = mismatch

  abbrev pub to_int : Json F → Result ℤ
  to_int null = ok (pos 0)
  to_int (int n) = ok n
  to_int _ = mismatch

  abbrev pub to_bool : Json F → Result Bool
  to_bool null = ok false
  to_bool (bool b) = ok b
  to_bool _ = mismatch

  abbrev pub to_time : Json F → Result Time
  to_time null = ok zero_time
  to_time (time t) = ok t
  to_time _ = mismatch

  -- A pointer to a time.
  abbrev pub to_time_pointer : Json F → Result (Option Time)
  to_time_pointer null = ok none
  to_time_pointer (time t) = ok (some t)
  to_time_pointer _ = mismatch

  -- The fields of a struct.
  abbrev pub to_object : Json F → Result (Fields F)
  to_object null = ok end
  to_object (object o) = ok o
  to_object _ = mismatch

  abbrev no_fields : Fields F
  no_fields = end

  -- A time, or what stands in its place.
  pub time_or : Option Time → Json F → Json F
  time_or none j = j
  time_or (some t) j = time t

  -- What a field reads as, past the fields before it.
  pub find-end : (k : String) → find k (no_fields) ≡ null
  unfolding find
  find-end k = refl

  pub find-field :
      (k j : String) (v : Json F) (rest : Fields F)
      → find k (field j v rest) ≡ (if j == k then v else find k rest)
  unfolding find
  find-field k j v rest = refl

  pub find-omit_text :
      (k j s : String) (rest : Fields F)
      → find k (omit_text j s rest)
        ≡ (if j == k then (if s == "" then find k rest else str s) else find k rest)
  unfolding find omit_text
  find-omit_text k j s rest = ground arith

  pub find-omit_time :
      (k j : String) (o : Option Time) (rest : Fields F)
      → find k (omit_time j o rest) ≡ (if j == k then time_or o (find k rest) else find k rest)
  unfolding find omit_time time_or
  find-omit_time k j o rest = ground arith

module _ (F : Type 0) where
  abbrev absent : Json F
  absent = null

  pub to_text-omitted : (s : String) → to_text (if s == "" then absent else str s) ≡ ok s
  to_text-omitted s = elim (Bool-cases (s == "")) [
    | inl e ↦ rw e (ap ok (sym ((eq_iff s "").0 e)))
    | inr n ↦ rw n
  ]

  pub to_time_pointer-omitted : (o : Option Time) → to_time_pointer (time_or o absent) ≡ ok o
  unfolding time_or
  to_time_pointer-omitted o = ground arith

pub ruleset find_rules = (find-end, find-field, find-omit_text, find-omit_time)
