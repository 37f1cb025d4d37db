-- ===== src/PinThrottle/Store.antt =====
-- What the in-memory store answers after a failure and after a success, for the key and for others.
use Prim.Native.String.{String}
use text.Mathlib.TextEquality.{eq_iff}
use valla_pos.Base.{
  ℕ, ◌≡◌, ◌≢◌, refl, ap, ◌∙◌, Bool, false, Option, none, some, [], ◌∷◌, leb, ltb, if◌then◌else◌,
  arith, inl, inr, Bool-cases, Option-cases,
}
use valla_pos.PinThrottle.{
  Entry, Store, get, set, delete, read_mem, next_entry, record_key_failure, record_key_success,
  assert_key_not_locked,
}

-- The entry of a key that has not expired.
abbrev pub unexpired : ℕ → Option Entry → Option Entry
unexpired now none = none
unexpired now (some e) = if leb e.expires_at now then none else some e

abbrev pub live : String → ℕ → Store → Option Entry
live k now s = unexpired now (get k s)

pub get-set : (k : String) (e : Entry) (s : Store) → get k (set k e s) ≡ some e
unfolding get set
get-set k e [] = ground (arith, eq_iff k k)
get-set k e ((j, d) ∷ s) = ground (arith, eq_iff j k, get-set k e s)

pub get-set_other : (k j : String) (e : Entry) (s : Store) → j ≢ k → get k (set j e s) ≡ get k s
unfolding get set
get-set_other k j e [] apart = ground (arith, eq_iff j k)
get-set_other k j e ((i, d) ∷ s) apart =
    ground (arith, eq_iff j k, eq_iff i j, eq_iff i k, get-set_other k j e s apart)

pub get-delete : (k : String) (s : Store) → get k (delete k s) ≡ none
unfolding get delete
get-delete k [] = refl
get-delete k ((j, d) ∷ s) = ground (arith, get-delete k s)

pub get-delete_other : (k j : String) (s : Store) → j ≢ k → get k (delete j s) ≡ get k s
unfolding get delete
get-delete_other k j [] apart = refl
get-delete_other k j ((i, d) ∷ s) apart =
    ground (arith, eq_iff j k, eq_iff i j, eq_iff i k, get-delete_other k j s apart)

pub read_mem-live : (k : String) (now : ℕ) (s : Store) → (read_mem k now s).0 ≡ live k now s
unfolding read_mem
read_mem-live k now s = elim (Option-cases (get k s)) [
  | inl e ↦ rw (e, read_mem) refl
  | inr (d, e) ↦ elim (Bool-cases (leb d.expires_at now)) [
    | inl old ↦ rw (e, old, read_mem) refl
    | inr new ↦ rw (e, new, read_mem) refl
  ]
]

abbrev pub is_locked : ℕ → Option Entry → Bool
is_locked now none = false
is_locked now (some e) = ltb now e.locked_until

pub assert-live :
    (k : String) (now : ℕ) (s : Store)
    → (assert_key_not_locked k now s).0 ≡ is_locked now (live k now s)
unfolding assert_key_not_locked
assert-live k now s = ap (is_locked now) (read_mem-live k now s)

-- Reading keeps what is live, of any key.
pub get-read_mem :
    (k : String) (now : ℕ) (s : Store) (e : Entry)
    → get k (read_mem k now s).1 ≡ some e
    → get k s ≡ some e
unfolding read_mem
get-read_mem k now s e h = ground (arith, get-delete k s)

pub get-read_mem_other :
    (k j : String) (now : ℕ) (s : Store) → j ≢ k → get k (read_mem j now s).1 ≡ get k s
unfolding read_mem
get-read_mem_other k j now s apart = ground (arith, get-delete_other k j s apart)

-- What a failure has stored under its key.
pub get-record_key_failure :
    (k : String) (now : ℕ) (s : Store)
    → get k (record_key_failure k now s) ≡ some (next_entry now (live k now s))
unfolding record_key_failure
get-record_key_failure k now s =
    get-set k (next_entry now (read_mem k now s).0) (read_mem k now s).1
    ∙ ap (λ e. some (next_entry now e)) (read_mem-live k now s)

-- Keys do not touch each other: a check, a failure and a success under one key leave the entry of
-- every other key as it is, and a success leaves its own key with none.
pub record_key-isolated :
    (k j : String) (now : ℕ) (s : Store)
    → j ≢ k
    → (get k (assert_key_not_locked j now s).1 ≡ get k s)
      × (get k (record_key_failure j now s) ≡ get k s)
      × (get k (record_key_success j s) ≡ get k s)
      × (get j (record_key_success j s) ≡ none)
unfolding assert_key_not_locked record_key_failure record_key_success
record_key-isolated k j now s apart = (
  get-read_mem_other k j now s apart,
  get-set_other k j _ (read_mem j now s).1 apart ∙ get-read_mem_other k j now s apart,
  get-delete_other k j s apart,
  get-delete j s,
)
