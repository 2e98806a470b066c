-- ===== src/Tests/Palms.antt =====
-- A Palm that keeps to what is asked of it: a bound of the IDs that are taken, and the records below.
use coldsync.Base.{
  ◌≡◌, ◌≢◌, ℕ, ◌+◌, ◌==◌, ltb, if◌then◌else◌, refl, arith, Bool, true, false, ◌⊎◌, inl, inr,
  Option-cases, Option, none, some,
}
use coldsync.Pdb.Ids.{Content}
use coldsync.Generic.Remote.{Palm, IsLawful, noerr, notfound}

abbrev Records : Type 0
Records = ℕ × (ℕ → Option Content)

abbrev holds : ℕ → Records → Option Content
holds i s = if i == 0 then none else if ltb i s.0 then s.1 i else none

abbrev is_there : Option Content → Bool
is_there none = false
is_there (some c) = true

-- A record that is there keeps its ID, and any other gets a new one.
abbrev new_id : ℕ → Records → ℕ
new_id id s = if is_there (holds id s) then id else s.0 + 1000

abbrev pub sample : Palm
sample = record {
  State = Records;
  is_online = λ s. true;
  delete_record = λ id s. (
    if is_there (holds id s) then noerr else notfound,
    (s.0, λ i. if id == i then none else holds i s),
  );
  write_record = λ id flags category bytes s. (
    noerr,
    new_id id s,
    (s.0 + new_id id s + 1, λ i. if new_id id s == i then some (category, bytes) else holds i s),
  );
}

pub answers_delete :
    (id : ℕ) (s : Records)
    → ((if is_there (holds id s) then noerr else notfound) ≡ noerr)
      ⊎ (((if is_there (holds id s) then noerr else notfound) ≡ notfound)
          × (holds id s ≡ none)
          × (true ≡ true))
answers_delete id s = elim (Option-cases (holds id s)) [
  | inl absent ↦ inr (rw absent, absent, refl)
  | inr (c, there) ↦ inl (rw there)
]

pub held-delete :
    (i id : ℕ) (s : Records)
    → holds i (s.0, λ j. if id == j then none else holds j s)
      ≡ (if id == i then none else holds i s)
held-delete i id s = ground arith

pub held-write :
    (i id : ℕ) (c : Content) (s : Records)
    → holds i (s.0 + new_id id s + 1, λ j. if new_id id s == j then some c else holds j s)
      ≡ (if new_id id s == i then some c else holds i s)
held-write i id c s = ground arith

pub keeps_id : (id : ℕ) (s : Records) → holds id s ≢ none → new_id id s ≡ id
keeps_id id s living = ground (arith, living)

pub fresh_id : (id : ℕ) (s : Records) → new_id id s ≢ id → holds (new_id id s) s ≡ none
fresh_id id s other = ground (arith, other)

pub not_zero : (id : ℕ) (s : Records) → new_id id s ≢ 0
not_zero id s = ground arith

abbrev pub sample-IsLawful : IsLawful sample
sample-IsLawful = record {
  held = holds;
  answers_delete = answers_delete;
  accepts_write = λ id flags category bytes s. refl;
  held-delete = held-delete;
  held-write = λ i id flags category bytes s. held-write i id (category, bytes) s;
  keeps_id = λ id flags category bytes s living. keeps_id id s living;
  fresh_id = λ id flags category bytes s other. fresh_id id s other;
  no_zero = λ s. refl;
  new_id = λ flags category bytes s. not_zero 0 s;
}
