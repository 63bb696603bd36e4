-- ===== src/CloudSql/Identity.antt =====
-- modules/google/cloudsql/cloudsql.go and user.go: the names that the code makes of IAM identities.
use Prim.Native.Char.{Char, code}
use Prim.Native.String.{◌++◌ as ◌append◌}
use Prim.Native.String.append
use text.Mathlib.TextLemmas.{append_assoc}
use blackstart.Prelude.{
  ℕ, String, Bool, true, false, ◌&&◌, ◌||◌, Option, none, some, ◌==◌, if◌then◌else◌, ◌≡◌, refl, sym,
  ap, ◌∙◌, subst, Bool-cases, inl, inr, arith, eq_iff, eq_refl, or-cases, false≢true, if_true,
  if_false,
}
use blackstart.Text.{
  ◌=ℕ◌, trim_space, contains_char, any_char, has_suffix, trim_suffix, before_char,
}
use blackstart.Module.{Result, ok}
use blackstart.Module.Results.{ok-inj, if-ok, if-ok_then}
use blackstart.CloudSql.Names.{normalize_service_account, mysql_iam_user, to_lower, local_name}

-- A text that is cut at the first of a character.
pub record IsCut (n : ℕ) (s r : String) : Type 0 where
  pub cut_at : Char
  pub rest : String
  pub is_char : (code cut_at =ℕ n) ≡ true
  pub parts : s ≡ r append (String.◌∷◌ cut_at rest)
  pub is_first : contains_char n r ≡ false

abbrev prepend : Char → Option String → Option String
prepend c o = elim o [ none ↦ none | some r ↦ some (String.◌∷◌ c r) ]

some-inj : {a b : String} → some a ≡ some b → a ≡ b
some-inj {a} h = ap (λ o. elim o [ none ↦ a | some x ↦ x ]) h

before_char-IsCut : (n : ℕ) (s r : String) → before_char n s ≡ some r → IsCut n s r
unfolding before_char contains_char
before_char-IsCut n String.[] r h = cc
before_char-IsCut n (String.◌∷◌ c s) r h =
    step (code c =ℕ n) refl (before_char n s) (before_char-IsCut n s) h
  where
    step :
        (b : Bool)
        → (code c =ℕ n) ≡ b
        → (o : Option String) → ((r' : String) → o ≡ some r' → IsCut n s r')
        → (if b then some String.[] else prepend c o) ≡ some r
        → IsCut n (String.◌∷◌ c s) r
    step true same o later made = subst (IsCut n (String.◌∷◌ c s)) (some-inj made) (record {
      cut_at = c;
      rest = s;
      is_char = same;
      parts = sym (append.nil (String.◌∷◌ c s));
      is_first = refl;
    })
    step false other none later made = cc
    step false other (some r') later made =
        let cut = later r' refl in
        subst (IsCut n (String.◌∷◌ c s)) (some-inj made) (record {
          cut_at = cut.cut_at;
          rest = cut.rest;
          is_char = cut.is_char;
          parts = ap (λ x. String.◌∷◌ c x) cut.parts ∙ sym (append.cons c r' _);
          is_first = ap (λ b. b || any_char (λ d. code d =ℕ n) r') other ∙ cut.is_first;
        })

module _ (lower_other : Char → Char) where
  -- The local name that MySQL has for an IAM identity is what stands before the first at sign of the
  -- trimmed identity, and is not empty.
  pub mysql_iam_user-IsCut :
      (identity name : String)
      → mysql_iam_user lower_other identity ≡ ok name
      → IsCut 64 (trim_space identity) name × ((name == "") ≡ false)
  unfolding mysql_iam_user
  mysql_iam_user-IsCut identity name h =
      let i = trim_space identity in
      let (filled, h1) = if-ok (i == "") _ _ name h in
      let (lower, h2) = if-ok_then (i == to_lower lower_other i) _ _ name h1 in
      named (before_char 64 i) (before_char-IsCut 64 i) h2
    where
      named :
          (o : Option String)
          → ((r : String) → o ≡ some r → IsCut 64 (trim_space identity) r)
          → local_name lower_other o ≡ ok name
          → IsCut 64 (trim_space identity) name × ((name == "") ≡ false)
      named none cut made = cc
      named (some r) cut made =
          let (filled, same) = if-ok (r == "") _ _ name made in
          subst (λ x. IsCut 64 (trim_space identity) x × ((x == "") ≡ false)) (ok-inj same)
            (cut r refl, filled)

or_true : (a b : Bool) → b ≡ true → (a || b) ≡ true
or_true a b h = ground arith

has_suffix_self : (s : String) → has_suffix s s ≡ true
unfolding has_suffix
has_suffix_self String.[] = refl
has_suffix_self (String.◌∷◌ c s) =
    ap (λ b. b || has_suffix (String.◌∷◌ c s) s) (eq_refl (String.◌∷◌ c s))

has_suffix-append : (suffix s : String) → has_suffix suffix (s append suffix) ≡ true
unfolding has_suffix
has_suffix-append suffix String.[] =
    ap (has_suffix suffix) (append.nil suffix) ∙ has_suffix_self suffix
has_suffix-append suffix (String.◌∷◌ c s) =
    ap (has_suffix suffix) (append.cons c s suffix)
    ∙ or_true _ (has_suffix suffix (s append suffix)) (has_suffix-append suffix s)

abbrev full : String
full = ".iam.gserviceaccount.com"

abbrev domain : String
domain = ".gserviceaccount.com"

has_suffix-trim_suffix :
    (s : String) → has_suffix full s ≡ true → has_suffix ".iam" (trim_suffix domain s) ≡ true
unfolding has_suffix trim_suffix
has_suffix-trim_suffix String.[] h = cc
has_suffix-trim_suffix (String.◌∷◌ c s) h =
    elim (or-cases (String.◌∷◌ c s == full) (has_suffix full s) h) [
      | inl whole ↦
          subst (λ x. has_suffix ".iam" (trim_suffix domain x) ≡ true)
            (sym ((eq_iff (String.◌∷◌ c s) full).0 whole)) refl
      | inr later ↦ elim (Bool-cases (String.◌∷◌ c s == domain)) [
        | inl short ↦
            let h' =
              subst (λ x. has_suffix full x ≡ true) ((eq_iff (String.◌∷◌ c s) domain).0 short) h in
            absurd (false≢true h')
        | inr other ↦
            ap (has_suffix ".iam") (if_false (λ (x : String). x) _ _ other)
            ∙ or_true _ (has_suffix ".iam" (trim_suffix domain s)) (has_suffix-trim_suffix s later)
      ]
    ]

-- Whatever form a service account is given in, the name that the code makes of it ends in `.iam`.
pub normalize_service_account-has_suffix :
    (username project name : String)
    → normalize_service_account username project ≡ ok name
    → has_suffix ".iam" name ≡ true
unfolding normalize_service_account
normalize_service_account-has_suffix username project name h =
    let t = trim_space username in
    let (filled, h1) = if-ok (t == "") _ _ name h in
    elim (Bool-cases (has_suffix full t)) [
      | inl address ↦
          subst (λ x. has_suffix ".iam" x ≡ true)
            (ok-inj (sym (if_true (λ (r : Result String). r) _ _ address) ∙ h1))
            (has_suffix-trim_suffix t address)
      | inr other ↦
          let h2 = sym (if_false (λ (r : Result String). r) _ _ other) ∙ h1 in
          elim (Bool-cases (has_suffix ".iam" t && contains_char 64 t)) [
            | inl made ↦
                subst (λ x. has_suffix ".iam" x ≡ true)
                  (ok-inj (sym (if_true (λ (r : Result String). r) _ _ made) ∙ h2))
                  (and_left (has_suffix ".iam" t) (contains_char 64 t) made)
            | inr bare ↦
                let h3 = sym (if_false (λ (r : Result String). r) _ _ bare) ∙ h2 in
                let (no_at, h4) = if-ok (contains_char 64 t) _ _ name h3 in
                let (given, h5) = if-ok (trim_space project == "") _ _ name h4 in
                subst (λ x. has_suffix ".iam" x ≡ true)
                  (append_assoc t ("@" append project) ".iam"
                    ∙ ap (λ x. t append x) (append_assoc "@" project ".iam")
                    ∙ ok-inj h5)
                  (has_suffix-append ".iam" (t append ("@" append project)))
          ]
    ]
  where
    and_left : (a b : Bool) → (a && b) ≡ true → a ≡ true
    and_left a b h' = ground arith
