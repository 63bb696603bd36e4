-- ===== src/Text.antt =====
-- The functions of package strings that the code uses, and the conversion of a number to a text.
-- `to_upper` leaves a letter alone whose upper case is not in ASCII: its results are only compared
-- with texts in ASCII.
use Prim.Native.Char.{Char, char, code, IsLt}
use Prim.Native.Nat.{Ordering, compare}
use blackstart.Prelude.{
  ℕ, ◌+◌, ◌-◌, ◌*◌, String, Bool, true, false, ◌&&◌, ◌||◌, Option, none, some, List, [], ◌∷◌, leb,
  ltb, if◌then◌else◌, ◌==◌,
}

infix 50 ◌=ℕ◌
abbrev pub ◌=ℕ◌ : ℕ → ℕ → Bool
a =ℕ b = leb a b && leb b a

-- The numbers of characters, as `IsScalar` of package Char has them.
abbrev BothBelow : Ordering → Ordering → Type 0
BothBelow Ordering.lt o = IsLt o
BothBelow Ordering.eq _ = ⊥
BothBelow Ordering.gt _ = ⊥

abbrev Scalar : Ordering → Ordering → Ordering → Type 0
Scalar Ordering.lt _ _ = Unit
Scalar Ordering.eq o p = BothBelow o p
Scalar Ordering.gt o p = BothBelow o p

abbrev both_below? : (o p : Ordering) → Option (BothBelow o p)
both_below? Ordering.lt Ordering.lt = some tt
both_below? Ordering.lt Ordering.eq = none
both_below? Ordering.lt Ordering.gt = none
both_below? Ordering.eq _ = none
both_below? Ordering.gt _ = none

abbrev scalar? : (o p q : Ordering) → Option (Scalar o p q)
scalar? Ordering.lt _ _ = some tt
scalar? Ordering.eq p q = both_below? p q
scalar? Ordering.gt p q = both_below? p q

-- rune(n) in a string: the character, or U+FFFD where there is none
unfoldable pub rune : ℕ → Char
rune n = elim (scalar? (compare n 55296) (compare 57343 n) (compare n 1114112)) [
  | some valid ↦ char n valid
  | none ↦ char 65533 tt
]

-- string(n) for an integer n
unfoldable pub string_of_rune : ℕ → String
unfolding rune
string_of_rune n = String.◌∷◌ (rune n) String.[]

-- unicode.ToUpper on the ASCII letters and on the two other letters whose upper case is in ASCII
unfoldable pub upper_char : Char → Char
unfolding rune
upper_char c =
    if leb 97 (code c) && leb (code c) 122
    then rune (code c - 32)
    else if code c =ℕ 305
    then rune 73
    else if code c =ℕ 383
    then rune 83
    else c

-- strings.ToUpper
unfoldable pub to_upper : String → String
unfolding upper_char
to_upper String.[] = String.[]
to_upper (String.◌∷◌ c s) = String.◌∷◌ (upper_char c) (to_upper s)

-- unicode.IsSpace
unfoldable pub is_space : Char → Bool
is_space c =
    let n = code c in
    (leb 9 n && leb n 13)
    || n =ℕ 32
    || n =ℕ 133
    || n =ℕ 160
    || n =ℕ 5760
    || (leb 8192 n && leb n 8202)
    || n =ℕ 8232
    || n =ℕ 8233
    || n =ℕ 8239
    || n =ℕ 8287
    || n =ℕ 12288

unfoldable pub trim_left : String → String
unfolding is_space
trim_left String.[] = String.[]
trim_left (String.◌∷◌ c s) = if is_space c then trim_left s else String.◌∷◌ c s

abbrev pub cons_trimmed : Char → String → String
cons_trimmed c String.[] = if is_space c then String.[] else String.◌∷◌ c String.[]
cons_trimmed c (String.◌∷◌ d s) = String.◌∷◌ c (String.◌∷◌ d s)

unfoldable pub trim_right : String → String
unfolding is_space
trim_right String.[] = String.[]
trim_right (String.◌∷◌ c s) = cons_trimmed c (trim_right s)

-- strings.TrimSpace
unfoldable pub trim_space : String → String
unfolding trim_left trim_right
trim_space s = trim_right (trim_left s)

-- A character of the text passes the test.
abbrev pub any_char : (Char → Bool) → String → Bool
any_char test String.[] = false
any_char test (String.◌∷◌ c s) = test c || any_char test s

-- Every element of a list passes the test.
abbrev pub all_of {ℓ} : {A : Type ℓ} → (A → Bool) → List A → Bool
all_of test [] = true
all_of test (x ∷ xs) = test x && all_of test xs

abbrev pub all_char : (Char → Bool) → String → Bool
all_char test String.[] = true
all_char test (String.◌∷◌ c s) = test c && all_char test s

-- strings.Contains for a text of one character
unfoldable pub contains_char : ℕ → String → Bool
contains_char n s = any_char (λ c. code c =ℕ n) s

-- strings.TrimSuffix for a suffix of one character
unfoldable pub trim_suffix_char : ℕ → String → String
trim_suffix_char n String.[] = String.[]
trim_suffix_char n (String.◌∷◌ c String.[]) =
    if code c =ℕ n then String.[] else String.◌∷◌ c String.[]
trim_suffix_char n (String.◌∷◌ c (String.◌∷◌ d s)) =
    String.◌∷◌ c (trim_suffix_char n (String.◌∷◌ d s))

abbrev digit : Char → Option ℕ
digit c = if leb 48 (code c) && leb (code c) 57 then some (code c - 48) else none

-- The loop of strconv.ParseUint in base 10 with a bound above the largest value.
unfoldable pub parse_digits : ℕ → ℕ → String → Option ℕ
parse_digits bound acc String.[] = some acc
parse_digits bound acc (String.◌∷◌ c s) = elim (digit c) [
  | none ↦ none
  | some d ↦ elim (ltb (acc * 10 + d) bound) [
    | true ↦ parse_digits bound (acc * 10 + d) s
    | false ↦ none
  ]
]

-- strconv.ParseUint(s, 10, 32)
unfoldable pub parse_uint32 : String → Option ℕ
unfolding parse_digits
parse_uint32 String.[] = none
parse_uint32 (String.◌∷◌ c s) = parse_digits 4294967296 0 (String.◌∷◌ c s)

abbrev cons_first : Char → List String → List String
cons_first c [] = String.◌∷◌ c String.[] ∷ []
cons_first c (s ∷ ss) = String.◌∷◌ c s ∷ ss

-- strings.Split at a separator of one character
unfoldable pub split_char : ℕ → String → List String
split_char n String.[] = String.[] ∷ []
split_char n (String.◌∷◌ c s) =
    let rest = split_char n s in if code c =ℕ n then String.[] ∷ rest else cons_first c rest

-- strings.ReplaceAll that puts a character twice
unfoldable pub double_char : ℕ → String → String
double_char n String.[] = String.[]
double_char n (String.◌∷◌ c s) =
    let rest = double_char n s in
    if code c =ℕ n then String.◌∷◌ c (String.◌∷◌ c rest) else String.◌∷◌ c rest

-- strings.Join(strings.Fields(s), " "): the words of a text with one blank between them. The flag
-- says that a blank is due before the next character.
unfoldable pub join_fields_from : Bool → String → String
unfolding is_space rune
join_fields_from due String.[] = String.[]
join_fields_from due (String.◌∷◌ c s) = elim (is_space c) [
  | true ↦ join_fields_from true s
  | false ↦
      let rest = join_fields_from false s in
      if due then String.◌∷◌ (rune 32) (String.◌∷◌ c rest) else String.◌∷◌ c rest
]

unfoldable pub join_fields : String → String
unfolding join_fields_from trim_left
join_fields s = join_fields_from false (trim_left s)

-- strings.ReplaceAll of one character by another
unfoldable pub replace_char : ℕ → Char → String → String
replace_char n to String.[] = String.[]
replace_char n to (String.◌∷◌ c s) =
    String.◌∷◌ (if code c =ℕ n then to else c) (replace_char n to s)

-- The capital of a letter under Unicode's simple folding, for the letters that fold into ASCII; other
-- characters stand for themselves.
unfoldable pub fold_char : Char → Char
unfolding rune
fold_char c =
    if leb 97 (code c) && leb (code c) 122
    then rune (code c - 32)
    else if code c =ℕ 383
    then rune 83
    else if code c =ℕ 8490
    then rune 75
    else c

unfoldable pub fold : String → String
unfolding fold_char
fold String.[] = String.[]
fold (String.◌∷◌ c s) = String.◌∷◌ (fold_char c) (fold s)

-- strings.EqualFold where the second text is in ASCII
unfoldable pub equal_fold : String → String → Bool
unfolding fold
equal_fold s t = fold s == fold t

-- strings.HasPrefix
unfoldable pub has_prefix : String → String → Bool
has_prefix String.[] s = true
has_prefix (String.◌∷◌ c p) String.[] = false
has_prefix (String.◌∷◌ c p) (String.◌∷◌ d s) = code c =ℕ code d && has_prefix p s

-- strings.HasSuffix, with the suffix first
unfoldable pub has_suffix : String → String → Bool
has_suffix suffix String.[] = suffix == ""
has_suffix suffix (String.◌∷◌ c s) = String.◌∷◌ c s == suffix || has_suffix suffix s

-- strings.TrimSuffix, with the suffix first
unfoldable pub trim_suffix : String → String → String
trim_suffix suffix String.[] = String.[]
trim_suffix suffix (String.◌∷◌ c s) =
    if String.◌∷◌ c s == suffix then String.[] else String.◌∷◌ c (trim_suffix suffix s)

-- The part of a text before the first of a character, if there is one: strings.Cut
unfoldable pub before_char : ℕ → String → Option String
before_char n String.[] = none
before_char n (String.◌∷◌ c s) =
    let rest = before_char n s in
    if code c =ℕ n
    then some String.[]
    else elim rest [ none ↦ none | some r ↦ some (String.◌∷◌ c r) ]

-- An integer with its sign.
pub data Signed : Type 0 where
  plus minus : ℕ → Signed

abbrev signed : (ℕ → Signed) → Option ℕ → Option Signed
signed sign none = none
signed sign (some n) = some (sign n)

abbrev some_digits : ℕ → String → Option ℕ
some_digits bound String.[] = none
some_digits bound (String.◌∷◌ c s) = parse_digits bound 0 (String.◌∷◌ c s)

-- strconv.Atoi, for an int of 64 bits
unfoldable pub atoi : String → Option Signed
unfolding parse_digits
atoi String.[] = none
atoi (String.◌∷◌ c s) =
    if code c =ℕ 45
    then signed minus (some_digits 9223372036854775809 s)
    else if code c =ℕ 43
    then signed plus (some_digits 9223372036854775808 s)
    else signed plus (parse_digits 9223372036854775808 0 (String.◌∷◌ c s))
