-- ===== src/Store/Dicts.antt =====
-- The dicts of probestore/app/routers/ingest.py, which are keyed by address and SNI.
use tunnel_ops.Base.{
  str_eq_iff, str_eq_refl, true, false, List, [], ◌∷◌, map, All, some, is_some, Bool-cases,
  if◌then◌else◌, ◌≡◌, refl, sym, ◌∙◌, inl, inr, arith,
}
use tunnel_ops.Store.{
  NodeRef, ResultIn, Key, key_eq, key_of, set_item, get_item, set_items, node_pairs,
}
use tunnel_ops.Store.Documents.{has_key}

pub key_eq_sound : (j k : Key) → key_eq j k ≡ true → j ≡ k
key_eq_sound (a, b) (c, d) h =
    let same : (a ≡ c) × (b ≡ d) = ground (arith, str_eq_iff a c, str_eq_iff b d) in
    λ i. (same.0 i, same.1 i)

pub key_eq_refl : (k : Key) → key_eq k k ≡ true
key_eq_refl (a, b) = rw (str_eq_refl a, str_eq_refl b) refl

module _ {V : Type 0} where
  pub get_item-set_item :
      (j k : Key) (v : V) (d : List (Key × V))
      → get_item j (set_item k v d) ≡ (if key_eq k j then some v else get_item j d)
  get_item-set_item j k v [] = refl
  get_item-set_item j k v ((i, w) ∷ d) = elim (Bool-cases (key_eq i k)) [
    | inl e ↦ let same = key_eq_sound i k e in rw (same, key_eq_refl k) (ground arith)
    | inr e ↦ rw (e, get_item-set_item j k v d) (ground (arith, apart e))
  ]
    where
      apart : key_eq i k ≡ false → key_eq i j ≡ true → key_eq k j ≡ true → false ≡ true
      apart e h g =
          let same : i ≡ k = key_eq_sound i j h ∙ sym (key_eq_sound k j g) in
          sym (rw same at e) ∙ key_eq_refl k

  -- A key that is set stays.
  get_item-set_items :
      (k : Key) (pairs d : List (Key × V))
      → is_some (get_item k d) ≡ true
      → is_some (get_item k (set_items pairs d)) ≡ true
  get_item-set_items k [] d h = h
  get_item-set_items k ((j, v) ∷ pairs) d h =
      get_item-set_items k pairs (set_item j v d)
        (rw (get_item-set_item k j v d) (ground (arith, h)))

  pub set_items-All :
      (pairs d : List (Key × V))
      → All (λ p. is_some (get_item p.0 (set_items pairs d)) ≡ true) pairs
  set_items-All [] d = tt
  set_items-All ((k, v) ∷ pairs) d = (
    get_item-set_items k pairs (set_item k v d)
        (rw (get_item-set_item k k v d, key_eq_refl k) refl),
    set_items-All pairs (set_item k v d),
  )

  pub has_key-get_item :
      (k : Key) (d : List (Key × V)) → has_key k (map (λ e. e.0) d) ≡ is_some (get_item k d)
  has_key-get_item k [] = refl
  has_key-get_item k ((j, w) ∷ d) = ground (arith, has_key-get_item k d)

-- An entry of the dict of nodes is a node under its own key.
abbrev pub Keyed : List (Key × NodeRef) → Type 0
Keyed d = All (λ e. key_of e.1 ≡ e.0) d

set_item-Keyed :
    (n : NodeRef) (d : List (Key × NodeRef)) → Keyed d → Keyed (set_item (key_of n) n d)
set_item-Keyed n [] h = (refl, tt)
set_item-Keyed n ((j, w) ∷ d) h = elim (Bool-cases (key_eq j (key_of n))) [
  | inl e ↦ rw e (sym (key_eq_sound j (key_of n) e), h.1)
  | inr e ↦ rw e (h.0, set_item-Keyed n d h.1)
]

module _ {Float64 : Type 0} where
  pub set_items-Keyed :
      (rs : List (ResultIn Float64)) (d : List (Key × NodeRef))
      → Keyed d
      → Keyed (set_items (node_pairs rs) d)
  set_items-Keyed [] d h = h
  set_items-Keyed (r ∷ rs) d h =
      set_items-Keyed rs (set_item (key_of r.node) r.node d) (set_item-Keyed r.node d h)

pub Keyed-keys :
    (d : List (Key × NodeRef)) → Keyed d → map key_of (map (λ e. e.1) d) ≡ map (λ e. e.0) d
Keyed-keys [] h = refl
Keyed-keys ((k, n) ∷ d) h = λ i. h.0 i ∷ Keyed-keys d h.1 i
