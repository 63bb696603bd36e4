-- ===== src/Module/Loops.antt =====
-- Loops whose rounds append to one list and may end them with an error: what holds of every element,
-- and the list that they build.
use blackstart.Prelude.{
  Option, none, some, List, [], ◌∷◌, ◌++◌, All, ◌≡◌, refl, sym, ap, ◌∙◌, subst,
}
use blackstart.Module.{Error, Result, ok, err, ◌>>=◌}
use blackstart.Module.Results.{ok-inj, bind-ok}

-- A check of the code that ends it with an error.
abbrev pub unless_error : {A : Type 0} → Option Error → Result A → Result A
unless_error none r = r
unless_error (some e) r = err e

-- A loop whose rounds append to one list and may end it with an error.
unfoldable pub each : {A B : Type 0} → (A → Result (List B)) → List A → Result (List B)
each f [] = ok []
each f (x ∷ xs) = f x >>= λ ys. each f xs >>= λ zs. ok (ys ++ zs)

pub unless_error-ok :
    {A : Type 0} (o : Option Error) (r : Result A) (a : A)
    → unless_error o r ≡ ok a
    → (o ≡ none) × (r ≡ ok a)
unless_error-ok none r a h = (refl, h)
unless_error-ok (some e) r a h = cc

pub All-append :
    {A : Type 0} (P : A → Type 0) (xs ys : List A) → All P xs → All P ys → All P (xs ++ ys)
All-append P [] ys hx hy = hy
All-append P (x ∷ xs) ys hx hy = (hx.0, All-append P xs ys hx.1 hy)

abbrev pub concat_map : {A B : Type 0} → (A → List B) → List A → List B
concat_map g [] = []
concat_map g (x ∷ xs) = g x ++ concat_map g xs

module _ {A B : Type 0} (f : A → Result (List B)) where
  pub each-All :
      (P : B → Type 0)
      → ((x : A) (ys : List B) → f x ≡ ok ys → All P ys)
      → (xs : List A) (zs : List B) → each f xs ≡ ok zs
      → All P zs
  unfolding each
  each-All P step [] zs h = subst (All P) (ok-inj h) tt
  each-All P step (x ∷ xs) zs h =
      let (ys, first, rest) = bind-ok (f x) (λ ys. each f xs >>= λ zs'. ok (ys ++ zs')) zs h in
      let (zs', later, last) = bind-ok (each f xs) (λ zs'. ok (ys ++ zs')) zs rest in
      subst (All P) (ok-inj last)
        (All-append P ys zs' (step x ys first) (each-All P step xs zs' later))

  pub each-concat_map :
      (g : A → List B)
      → ((x : A) (ys : List B) → f x ≡ ok ys → ys ≡ g x)
      → (xs : List A) (zs : List B) → each f xs ≡ ok zs
      → zs ≡ concat_map g xs
  unfolding each
  each-concat_map g step [] zs h = sym (ok-inj h)
  each-concat_map g step (x ∷ xs) zs h =
      let (ys, first, rest) = bind-ok (f x) (λ ys. each f xs >>= λ zs'. ok (ys ++ zs')) zs h in
      let (zs', later, last) = bind-ok (each f xs) (λ zs'. ok (ys ++ zs')) zs rest in
      sym (ok-inj last)
      ∙ (ap (λ u. u ++ zs') (step x ys first)
          ∙ ap (λ u. g x ++ u) (each-concat_map g step xs zs' later))

pub concat_map-All :
    {A B : Type 0} (P : A → Type 0) (Q : B → Type 0) (f : A → List B)
    → ((x : A) → P x → All Q (f x))
    → (xs : List A) → All P xs
    → All Q (concat_map f xs)
concat_map-All P Q f step [] h = tt
concat_map-All P Q f step (x ∷ xs) h =
    All-append Q (f x) (concat_map f xs) (step x h.0) (concat_map-All P Q f step xs h.1)
