-- ===== src/Mysql/Literal.antt =====
-- modules/mysql/queries.go: a MySQL server reads from a statement the account that was written there.
use Prim.Native.Char.{Char, char, code}
use Prim.Native.String.{◌++◌ as ◌append◌}
use Prim.Native.String.append
use blackstart.Prelude.{
  ℕ, String, Bool, true, false, not, Option, none, some, if◌then◌else◌, ◌≡◌, refl, ap, ◌∙◌, arith,
  Bool-cases, inl, inr, if_true, if_false,
}
use blackstart.Text.{◌=ℕ◌, double_char}
use blackstart.Mysql.Account.{Account, escape_string, account_sql}

abbrev with_char : Char → Option (String × String) → Option (String × String)
with_char c none = none
with_char c (some (s, rest)) = some (String.◌∷◌ c s, rest)

-- What a reader has just seen: nothing of note, a quote, or a backslash.
pub data Seen : Type 0 where
  plain : Seen
  a_quote : Seen
  a_backslash : Seen

-- How the server reads a string literal after its opening quote, as the MySQL manual has it: a
-- doubled quote and a doubled backslash stand for one, and a quote alone ends the literal. Other
-- escapes, which the code never writes, are no literal here. The result is the value and what follows.
unfoldable pub read_from : Seen → String → Option (String × String)
read_from plain String.[] = none
read_from plain (String.◌∷◌ c s) =
    if code c =ℕ 39
    then read_from a_quote s
    else if code c =ℕ 92
    then read_from a_backslash s
    else with_char c (read_from plain s)
read_from a_quote String.[] = some (String.[], String.[])
read_from a_quote (String.◌∷◌ c s) =
    if code c =ℕ 39 then with_char c (read_from plain s) else some (String.[], String.◌∷◌ c s)
read_from a_backslash String.[] = none
read_from a_backslash (String.◌∷◌ c s) =
    if code c =ℕ 92 then with_char c (read_from plain s) else none

abbrev quote : Char
quote = char 39 tt

-- A text that does not go on with a quote.
abbrev pub no_quote : String → Bool
no_quote String.[] = true
no_quote (String.◌∷◌ c s) = not (code c =ℕ 39)

abbrev doubled : Char → String → String
doubled c s = String.◌∷◌ c (String.◌∷◌ c s)

escape_string-plain :
    (c : Char) (s : String)
    → (code c =ℕ 39) ≡ false
    → (code c =ℕ 92) ≡ false
    → escape_string (String.◌∷◌ c s) ≡ String.◌∷◌ c (escape_string s)
unfolding escape_string double_char
escape_string-plain c s not_quote not_backslash =
    rw (not_backslash, double_char) (rw (not_quote, double_char) refl)

escape_string-quote :
    (c : Char) (s : String)
    → (code c =ℕ 39) ≡ true
    → escape_string (String.◌∷◌ c s) ≡ doubled c (escape_string s)
unfolding escape_string double_char
escape_string-quote c s is_quote =
    rw (not_92 (code c) is_quote, double_char) (rw (is_quote, double_char) refl)
  where
    not_92 : (n : ℕ) → (n =ℕ 39) ≡ true → (n =ℕ 92) ≡ false
    not_92 n h = ground arith

escape_string-backslash :
    (c : Char) (s : String)
    → (code c =ℕ 92) ≡ true
    → escape_string (String.◌∷◌ c s) ≡ doubled c (escape_string s)
unfolding escape_string double_char
escape_string-backslash c s is_backslash =
    rw (is_backslash, double_char) (rw (not_39 (code c) is_backslash, double_char) refl)
  where
    not_39 : (n : ℕ) → (n =ℕ 92) ≡ true → (n =ℕ 39) ≡ false
    not_39 n h = ground arith

read_from-quote :
    (c : Char) (x : String)
    → (code c =ℕ 39) ≡ true
    → read_from plain (doubled c x) ≡ with_char c (read_from plain x)
unfolding read_from
read_from-quote c x h = if_true (λ u. u) _ _ h ∙ if_true (λ u. u) _ _ h

read_from-backslash :
    (c : Char) (x : String)
    → (code c =ℕ 39) ≡ false
    → (code c =ℕ 92) ≡ true
    → read_from plain (doubled c x) ≡ with_char c (read_from plain x)
unfolding read_from
read_from-backslash c x h h' =
    if_false (λ u. u) _ _ h ∙ if_true (λ u. u) _ _ h' ∙ if_true (λ u. u) _ _ h'

read_from-plain :
    (c : Char) (x : String)
    → (code c =ℕ 39) ≡ false
    → (code c =ℕ 92) ≡ false
    → read_from plain (String.◌∷◌ c x) ≡ with_char c (read_from plain x)
unfolding read_from
read_from-plain c x h h' = if_false (λ u. u) _ _ h ∙ if_false (λ u. u) _ _ h'

read_from-end :
    (rest : String) → no_quote rest ≡ true → read_from a_quote rest ≡ some (String.[], rest)
unfolding read_from
read_from-end String.[] h = refl
read_from-end (String.◌∷◌ d rest) h = if_false (λ u. u) _ _ (not_true (code d =ℕ 39) h)
  where
    not_true : (b : Bool) → not b ≡ true → b ≡ false
    not_true b h' = ground arith

abbrev written : String → String → String
written v rest = escape_string v append String.◌∷◌ quote rest

written-doubled :
    (c : Char) (v rest : String)
    → escape_string (String.◌∷◌ c v) ≡ doubled c (escape_string v)
    → written (String.◌∷◌ c v) rest ≡ doubled c (written v rest)
written-doubled c v rest h =
    ap (λ x. x append String.◌∷◌ quote rest) h
    ∙ append.cons c (String.◌∷◌ c (escape_string v)) (String.◌∷◌ quote rest)
    ∙ ap (λ x. String.◌∷◌ c x) (append.cons c (escape_string v) (String.◌∷◌ quote rest))

written-plain :
    (c : Char) (v rest : String)
    → escape_string (String.◌∷◌ c v) ≡ String.◌∷◌ c (escape_string v)
    → written (String.◌∷◌ c v) rest ≡ String.◌∷◌ c (written v rest)
written-plain c v rest h =
    ap (λ x. x append String.◌∷◌ quote rest) h
    ∙ append.cons c (escape_string v) (String.◌∷◌ quote rest)

read_from-escape_string :
    (v rest : String) → no_quote rest ≡ true → read_from plain (written v rest) ≡ some (v, rest)
unfolding escape_string double_char read_from
read_from-escape_string String.[] rest h =
    ap (read_from plain) (append.nil (String.◌∷◌ quote rest)) ∙ read_from-end rest h
read_from-escape_string (String.◌∷◌ c v) rest h = elim (Bool-cases (code c =ℕ 39)) [
  | inl is_quote ↦
      ap (read_from plain) (written-doubled c v rest (escape_string-quote c v is_quote))
      ∙ read_from-quote c (written v rest) is_quote
      ∙ ap (with_char c) (read_from-escape_string v rest h)
  | inr other ↦ elim (Bool-cases (code c =ℕ 92)) [
    | inl is_backslash ↦
        ap (read_from plain) (written-doubled c v rest (escape_string-backslash c v is_backslash))
        ∙ read_from-backslash c (written v rest) other is_backslash
        ∙ ap (with_char c) (read_from-escape_string v rest h)
    | inr simple ↦
        ap (read_from plain) (written-plain c v rest (escape_string-plain c v other simple))
        ∙ read_from-plain c (written v rest) other simple
        ∙ ap (with_char c) (read_from-escape_string v rest h)
  ]
]

abbrev at : Char
at = char 64 tt

abbrev literal_at : String → Option (String × String)
literal_at String.[] = none
literal_at (String.◌∷◌ c s) = if code c =ℕ 39 then read_from plain s else none

abbrev account_end : String → Option (String × String) → Option Account
account_end user (some (host, String.[])) = some (record { user = user; host = host })
account_end user _ = none

abbrev account_rest : Option (String × String) → Option Account
account_rest none = none
account_rest (some (user, String.[])) = none
account_rest (some (user, String.◌∷◌ c s)) =
    if code c =ℕ 64 then account_end user (literal_at s) else none

-- How the server reads an account: two literals with an at sign between them, and nothing else.
unfoldable pub read_account : String → Option Account
unfolding read_from
read_account s = account_rest (literal_at s)

quote-append : (x : String) → "'" append x ≡ String.◌∷◌ quote x
quote-append x = append.cons quote String.[] x ∙ ap (λ y. String.◌∷◌ quote y) (append.nil x)

at-append : (x : String) → "'@'" append x ≡ String.◌∷◌ quote (String.◌∷◌ at (String.◌∷◌ quote x))
at-append x =
    append.cons quote "@'" x
    ∙ ap (λ y. String.◌∷◌ quote y)
        (append.cons at "'" x ∙ ap (λ y. String.◌∷◌ at y) (quote-append x))

account_sql-written :
    (a : Account)
    → account_sql a
      ≡ String.◌∷◌ quote
          (written a.user (String.◌∷◌ at (String.◌∷◌ quote (written a.host String.[]))))
unfolding account_sql
account_sql-written a =
    quote-append _ ∙ ap (λ y. String.◌∷◌ quote (escape_string a.user append y)) (at-append _)

-- Whatever an account holds, what is written of it into a statement is read back as that account:
-- no quote or backslash of a user or of a host ends its literal or is read otherwise.
pub read_account-account_sql : (a : Account) → read_account (account_sql a) ≡ some a
unfolding read_account read_from
read_account-account_sql a =
    ap read_account (account_sql-written a)
    ∙ ap account_rest (read_from-escape_string a.user _ refl)
    ∙ ap (account_end a.user) (read_from-escape_string a.host String.[] refl)
