-- ===== src/Dict.antt =====
-- Go's `map` with string keys, as an association list in the order of insertion. Go leaves the order
-- of iteration open; where the program iterates over a map, the model takes this order.
use kube_router.Prelude.{
  ◌||◌, String, ◌≡◌, refl, true, false, Option, none, some, List, [], ◌∷◌, ◌++◌, eq_refl, arith,
  ◌==◌, eq_iff, if◌then◌else◌, any, all, Bool,
}

module _ {ℓ} {V : Type ℓ} where
  -- `value, ok := dict[key]`
  unfoldable pub lookup : String → List (String × V) → Option V
  lookup key [] = none
  lookup key (entry ∷ more) =
      let later = lookup key more in if entry.0 == key then some entry.1 else later

  -- `dict[key] = value`
  unfoldable pub insert : String → V → List (String × V) → List (String × V)
  insert key value [] = (key, value) ∷ []
  insert key value (entry ∷ more) =
      let later = insert key value more in
      if entry.0 == key then (key, value) ∷ more else entry ∷ later

  -- `delete(m, k)`
  unfoldable pub delete : String → List (String × V) → List (String × V)
  delete k [] = []
  delete k ((j, v) ∷ m) = let rest = delete k m in if j == k then rest else (j, v) ∷ rest

  unfoldable pub keys : List (String × V) → List String
  keys [] = []
  keys ((j, v) ∷ m) = j ∷ keys m

  unfoldable pub values : List (String × V) → List V
  values [] = []
  values ((j, v) ∷ m) = v ∷ values m

  -- A write shows at its own key and nowhere else.
  pub lookup-insert :
      (written read : String) (value : V) (dict : List (String × V))
      → lookup read (insert written value dict)
        ≡ (if written == read then some value else lookup read dict)
  unfolding lookup insert
  lookup-insert written read value [] = refl
  lookup-insert written read value (entry ∷ more) =
      let later = lookup-insert written read value more in
      ground (later, arith, eq_iff entry.0 read, eq_iff entry.0 written, eq_iff written read)

  pub lookup-delete :
      (k j : String) (m : List (String × V))
      → lookup j (delete k m) ≡ (if k == j then none else lookup j m)
  unfolding lookup delete
  lookup-delete k j [] = ground arith
  lookup-delete k j ((i, w) ∷ m) =
      ground (arith, lookup-delete k j m, eq_iff i k, eq_iff i j, eq_iff k j)

  -- A key is listed exactly if it has a value.
  pub keys_lem :
      (k : String) (m : List (String × V))
      → any (λ j. j == k) (keys m) ≡ elim (lookup k m) [ none ↦ false | some v ↦ true ]
  unfolding lookup keys
  keys_lem k [] = refl
  keys_lem k ((j, v) ∷ m) = ground (arith, keys_lem k m)

  pub all-values-insert :
      (p : V → Bool) (k : String) (v : V) (m : List (String × V))
      → p v ≡ true
      → all p (values m) ≡ true
      → all p (values (insert k v m)) ≡ true
  unfolding values insert
  all-values-insert p k v [] h hs = ground arith
  all-values-insert p k v ((j, w) ∷ m) h hs = ground (arith, all-values-insert p k v m h)

  -- A value that is found is one of the values.
  pub any-values :
      (p : V → Bool) (k : String) (v : V) (m : List (String × V))
      → lookup k m ≡ some v
      → p v ≡ true
      → any p (values m) ≡ true
  unfolding values lookup
  any-values p k v [] h hp = cc
  any-values p k v ((j, w) ∷ m) h hp = ground (arith, any-values p k v m)

  -- Under a new key one value is added.
  pub any-values-insert :
      (p : V → Bool) (k : String) (v : V) (m : List (String × V))
      → lookup k m ≡ none
      → any p (values (insert k v m)) ≡ (any p (values m) || p v)
  unfolding values insert lookup
  any-values-insert p k v [] h = ground arith
  any-values-insert p k v ((j, w) ∷ m) h = ground (arith, any-values-insert p k v m)

  -- A new key stands last.
  pub insert-fresh :
      (k : String) (v : V) (m : List (String × V))
      → lookup k m ≡ none
      → insert k v m ≡ m ++ (k, v) ∷ []
  unfolding insert lookup
  insert-fresh k v [] h = refl
  insert-fresh k v ((j, w) ∷ m) h = ground (arith, insert-fresh k v m)

  pub lookup-last :
      (k : String) (v : V) (m : List (String × V))
      → lookup k m ≡ none
      → lookup k (m ++ (k, v) ∷ []) ≡ some v
  unfolding lookup
  lookup-last k v [] h = ground (arith, eq_refl k)
  lookup-last k v ((j, w) ∷ m) h = ground (arith, lookup-last k v m)

  pub insert-last :
      (k : String) (v w : V) (m : List (String × V))
      → lookup k m ≡ none
      → insert k w (m ++ (k, v) ∷ []) ≡ m ++ (k, w) ∷ []
  unfolding lookup insert
  insert-last k v w [] h = ground (arith, eq_refl k)
  insert-last k v w ((j, u) ∷ m) h = ground (arith, insert-last k v w m)

  pub lookup-append_ne :
      (k j : String) (v : V) (m : List (String × V))
      → lookup k m ≡ none
      → (j == k) ≡ false
      → lookup k (m ++ (j, v) ∷ []) ≡ none
  unfolding lookup
  lookup-append_ne k j v [] h p = ground arith
  lookup-append_ne k j v ((i, w) ∷ m) h p = ground (arith, lookup-append_ne k j v m)
