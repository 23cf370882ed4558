-- ===== src/Relay/Sql.antt =====
-- The statements that the handlers run, on a table as the list of its rows in the order of their
-- row ids: a new row goes last.
use safechat.Prelude.{
  ℕ, suc, ◌≡◌, refl, Bool, true, false, Option, none, some, List, [], ◌∷◌, ◌++◌, arith,
  if◌then◌else◌,
}

module _ {A : Type 0} where
  -- SELECT ... WHERE p
  unfoldable pub select : (A → Bool) → List A → List A
  select p [] = []
  select p (x ∷ xs) = if p x then x ∷ select p xs else select p xs

  -- `query_row(...).optional()`: the first row, if there is one.
  unfoldable pub query_row : (A → Bool) → List A → Option A
  query_row p [] = none
  query_row p (x ∷ xs) = if p x then some x else query_row p xs

  -- DELETE ... WHERE p
  unfoldable pub delete : (A → Bool) → List A → List A
  delete p [] = []
  delete p (x ∷ xs) = if p x then delete p xs else x ∷ delete p xs

  -- UPDATE ... SET f WHERE p
  unfoldable pub update : (A → Bool) → (A → A) → List A → List A
  update p f [] = []
  update p f (x ∷ xs) = (if p x then f x else x) ∷ update p f xs

  -- The number of rows that a statement changes.
  unfoldable pub count : (A → Bool) → List A → ℕ
  count p [] = 0
  count p (x ∷ xs) = if p x then suc (count p xs) else count p xs

  unfoldable pub exists : (A → Bool) → List A → Bool
  exists p [] = false
  exists p (x ∷ xs) = if p x then true else exists p xs

  -- INSERT OR IGNORE, where the key of the row collides with the rows of `p`.
  unfoldable pub insert_or_ignore : (A → Bool) → A → List A → List A
  insert_or_ignore p row xs = if exists p xs then xs else xs ++ (row ∷ [])

  -- INSERT OR REPLACE
  unfoldable pub insert_or_replace : (A → Bool) → A → List A → List A
  insert_or_replace p row xs = delete p xs ++ (row ∷ [])

  -- LIMIT n
  unfoldable pub limit : ℕ → List A → List A
  limit ℕ.zero xs = []
  limit (suc n) [] = []
  limit (suc n) (x ∷ xs) = x ∷ limit n xs

  pub exists-append :
      (p : A → Bool) (xs ys : List A)
      → exists p (xs ++ ys) ≡ (if exists p xs then true else exists p ys)
  unfolding exists
  exists-append p [] ys = refl
  exists-append p (x ∷ xs) ys = ground (arith, exists-append p xs ys)

  pub exists-last :
      (p : A → Bool) (xs : List A) (row : A) → p row ≡ true → exists p (xs ++ (row ∷ [])) ≡ true
  unfolding exists
  exists-last p [] row h = ground arith
  exists-last p (x ∷ xs) row h = ground (arith, exists-last p xs row h)

  pub exists_mono :
      (p q : A → Bool) (xs : List A)
      → ((x : A) → p x ≡ true → q x ≡ true)
      → exists p xs ≡ true
      → exists q xs ≡ true
  unfolding exists
  exists_mono p q [] h e = cc
  exists_mono p q (x ∷ xs) h e = ground (arith, h x, exists_mono p q xs h)

  -- A row that a deletion does not match stays.
  pub exists-delete :
      (p d : A → Bool) (xs : List A)
      → ((x : A) → p x ≡ true → d x ≡ false)
      → exists p xs ≡ true
      → exists p (delete d xs) ≡ true
  unfolding exists delete
  exists-delete p d [] apart e = e
  exists-delete p d (x ∷ xs) apart e = ground (arith, apart x, exists-delete p d xs apart)

  pub query_row-some : (p : A → Bool) (xs : List A) (x : A) → query_row p xs ≡ some x → p x ≡ true
  unfolding query_row
  query_row-some p [] x e = cc
  query_row-some p (y ∷ xs) x e = ground (arith, query_row-some p xs x)
