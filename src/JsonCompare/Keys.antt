-- ===== src/JsonCompare/Keys.antt =====
-- The keys of a normalised object: the search for a free one ends, and no member is lost.
use Prim.Native.String.{String}
use text.Mathlib.Text.{◌==◌ as str_eq}
use text.Mathlib.TextEquality.{eq_iff}
use scalpel_cli.Common.{
  ℕ, zero, suc, ◌+◌, ◌≤◌, ◌<◌, ◌≡◌, ◌≢◌, refl, inl, inr, Bool, true, false, not, ◌||◌, ◌⊎◌, [], ◌∷◌,
  none, some, arith, Option-cases, Bool-cases, if◌then◌else◌, length,
}
use scalpel_cli.Common.Dict.{Dict, lookup, insert, lookup-insert}
use scalpel_cli.JsonCompare.{
  Json, Members, no_members, member, Library, dynamic_value, normalize, Options, dynamic_key,
  candidate, free_from, free_key, is_key_dynamic, new_key, normalize_members,
}

-- A map without a key.
unfoldable drop_key : String → Dict Json → Dict Json
drop_key k [] = []
drop_key k ((j, v) ∷ d) = if str_eq j k then drop_key k d else (j, v) ∷ drop_key k d

length-drop_key : (k : String) (d : Dict Json) → length (drop_key k d) ≤ length d
unfolding drop_key
length-drop_key k [] = omega arith
length-drop_key k ((j, v) ∷ d) = ground (arith, length-drop_key k d)

drop_key-less :
    (k : String) (d : Dict Json) {v : Json} → lookup k d ≡ some v → length (drop_key k d) < length d
unfolding drop_key lookup
drop_key-less k [] h = ground arith
drop_key-less k ((j, w) ∷ d) {v} h = ground (arith, drop_key-less k d {v = v}, length-drop_key k d)

lookup-drop_key :
    (k l : String) (d : Dict Json)
    → lookup l (drop_key k d) ≡ (if str_eq k l then none else lookup l d)
unfolding drop_key lookup
lookup-drop_key k l [] = ground arith
lookup-drop_key k l ((j, w) ∷ d) =
    ground (arith, lookup-drop_key k l d, eq_iff j k, eq_iff j l, eq_iff k l)

module _ (c : ℕ → String) (distinct : (i j : ℕ) → c i ≡ c j → i ≡ j) where
  -- The result is a candidate from the start of the search on.
  free_from-candidate : (n i : ℕ) (d : Dict Json) → (m : ℕ) × (i ≤ m) × (free_from c n i d ≡ c m)
  unfolding free_from
  free_from-candidate zero i d = (i, omega arith, refl)
  free_from-candidate (suc n) i d = elim (Option-cases (lookup (c i) d)) [
    | inl e ↦ (i, omega arith, rw (e, free_from) refl)
    | inr (v, e) ↦
        let (m, le, q) = free_from-candidate n (suc i) d in
        (m, omega (arith, le), rw (e, free_from) q)
  ]

  other : (i m : ℕ) → i < m → str_eq (c i) (c m) ≡ false
  other i m h = elim (Bool-cases (str_eq (c i) (c m))) [
    | inr e ↦ e
    | inl e ↦ absurd (omega (arith, h, distinct i m (ground (arith, eq_iff (c i) (c m), e))))
  ]

  -- A key that the search has passed makes no difference to it.
  free_from-drop_key :
      (n k i : ℕ) (d : Dict Json) → i < k → free_from c n k (drop_key (c i) d) ≡ free_from c n k d
  unfolding free_from
  free_from-drop_key zero k i d h = refl
  free_from-drop_key (suc n) k i d h = ground (
    arith,
    lookup-drop_key (c i) (c k) d,
    other i k h,
    free_from-drop_key n (suc k) i d (omega (arith, h)),
  )

  -- Among more candidates than there are keys, one is free.
  one_is_free : (n i : ℕ) (d : Dict Json) → length d ≤ n → lookup (free_from c n i d) d ≡ none
  unfolding free_from lookup
  one_is_free zero i [] h = refl
  one_is_free zero i (x ∷ d) h = absurd (omega (arith, h))
  one_is_free (suc n) i d h = elim (Option-cases (lookup (c i) d)) [
    | inl e ↦ rw (e, free_from) e
    | inr (v, e) ↦
        let less = drop_key-less (c i) d {v = v} e in
        let ih = one_is_free n (suc i) (drop_key (c i) d) (omega (arith, less, h)) in
        let (m, le, q) = free_from-candidate n (suc i) d in
        let same = free_from-drop_key n (suc i) i d (omega arith) in
        rw (e, free_from)
          (ground
            (arith, ih, same, q, lookup-drop_key (c i) (c m) d, other i m (omega (arith, le))))
  ]

length-insert :
    (k : String) (v : Json) (d : Dict Json)
    → lookup k d ≡ none
    → length (insert k v d) ≡ suc (length d)
unfolding lookup insert
length-insert k v [] h = refl
length-insert k v ((j, w) ∷ d) h = ground (arith, length-insert k v d)

unfoldable pub size_of : Members → ℕ
size_of no_members = 0
size_of (member k j ms) = suc (size_of ms)

unfoldable pub has_key : String → Members → Bool
has_key k no_members = false
has_key k (member j v ms) = if str_eq j k then true else has_key k ms

module _ (lib : Library) (o : Options) where
  -- A key that is stored as it is.
  abbrev pub is_fixed : String → Bool
  is_fixed key = not (is_key_dynamic key o.key_patterns || str_eq key dynamic_key)

  -- Members with keys of their own, of which those that are stored as they are stand neither in the map
  -- nor among the placeholders.
  abbrev pub Storable : Dict Json → Members → Type 0
  Storable d no_members = Unit {0}
  Storable d (member key j ms) =
      (is_fixed key ≡ true → (lookup key d ≡ none) × ((i : ℕ) → candidate lib i ≢ key))
      × (has_key key ms ≡ false)
      × Storable d ms

  -- A new key that is not one of the members, or is a placeholder.
  insert-Storable :
      (k : String) (v : Json) (d : Dict Json) (ms : Members)
      → (has_key k ms ≡ false) ⊎ ((i : ℕ) × (k ≡ candidate lib i))
      → Storable d ms
      → Storable (insert k v d) ms
  unfolding has_key
  insert-Storable k v d no_members h s = tt
  insert-Storable k v d (member key j ms) (inl h) (f, fresh, s) = (
    λ p. (ground (arith, (f p).0, lookup-insert k key v d, eq_iff k key, eq_iff key k, h), (f p).1),
    fresh,
    insert-Storable k v d ms (inl (ground (arith, h))) s,
  )
  insert-Storable k v d (member key j ms) (inr (i, e)) (f, fresh, s) = (
    λ p. (
      let ne = (f p).1 i in ground (arith, (f p).0, e, ne, lookup-insert k key v d, eq_iff k key),
      (f p).1,
    ),
    fresh,
    insert-Storable k v d ms (inr (i, e)) s,
  )

  module _ (distinct : (i j : ℕ) → candidate lib i ≡ candidate lib j → i ≡ j) where
    -- The key that a member gets is free, and does no harm to the members behind it.
    new_key-free :
        (key : String) (j : Json) (d : Dict Json) (ms : Members)
        → Storable d (member key j ms)
        → (lookup (new_key lib o key d) d ≡ none)
          × ((has_key (new_key lib o key d) ms ≡ false)
              ⊎ ((i : ℕ) × (new_key lib o key d ≡ candidate lib i)))
    unfolding new_key free_key
    new_key-free key j d ms (f, fresh, s) =
        elim (Bool-cases (is_key_dynamic key o.key_patterns || str_eq key dynamic_key)) [
          | inl e ↦
              let (m, le, q) = free_from-candidate (candidate lib) distinct (length d) 0 d in
              rw e (one_is_free (candidate lib) distinct (length d) 0 d (omega arith), inr (m, q))
          | inr e ↦ rw e ((f (rw e refl)).0, inl fresh)
        ]

    -- Where the placeholders differ from each other, the search for a free one ends at a key that is not in
    -- the map, after at most one candidate more than there are keys.
    pub free_key_lem : (d : Dict Json) → lookup (free_key lib d) d ≡ none
    unfolding free_key
    free_key_lem d = one_is_free (candidate lib) distinct (length d) 0 d (omega arith)

    -- Where the placeholders differ from each other, an object whose keys are its own, and of which no key
    -- that is stored as it is stands in the map before or is a placeholder, loses no member: the map
    -- behind the loop has as many keys more as the object has members.
    pub length-normalize_members :
        (ms : Members) (d : Dict Json)
        → Storable d ms
        → length (normalize_members lib o ms d) ≡ length d + size_of ms
    unfolding normalize_members size_of
    length-normalize_members no_members d s = omega arith
    length-normalize_members (member key j ms) d s =
        let (free, safe) = new_key-free key j d ms s in
        let v = if is_key_dynamic key o.key_patterns then dynamic_value else normalize lib o j in
        let ih =
          length-normalize_members ms (insert (new_key lib o key d) v d)
            (insert-Storable (new_key lib o key d) v d ms safe s.2) in
        omega (arith, ih, length-insert (new_key lib o key d) v d free)
