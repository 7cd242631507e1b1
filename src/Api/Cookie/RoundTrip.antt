-- ===== src/Api/Cookie/RoundTrip.antt =====
-- A cookie header as a browser writes it is read back: `session_cookie_value` finds the value of the
-- first cookie of the name.
use mathlib.Core.List.{reverse, reverse-cons, reverse-reverse, append_assoc, append-nil}
use scpy.Prelude.{
  ℕ, ◌≡◌, refl, ap, ◌∙◌, Bool, true, ◌||◌, not, some, List, [], ◌∷◌, ◌++◌, ◌==◌, if◌then◌else◌,
  Text, text_eq, arith,
}
use scpy.HashMap.{HashMap, lookup}
use scpy.Api.Cookie.{
  semicolon, equals, space, split, is_whitespace, trim_start, trim, split_pair, find_pair,
  session_cookie_value,
}

abbrev Every : (ℕ → Bool) → Text → Type 0
Every p [] = Unit {0}
Every p (byte ∷ rest) = (p byte ≡ true) × Every p rest

-- A byte that may stand in a cookie's value; in a name `=` may not stand either.
abbrev pub value_byte : ℕ → Bool
value_byte byte = not (byte == semicolon || is_whitespace byte)

abbrev pub name_byte : ℕ → Bool
name_byte byte = not (byte == semicolon || byte == equals || is_whitespace byte)

-- `name=value`, and the pairs after a first one, each after `; `.
abbrev pair_text : Text → Text → Text
pair_text name value = name ++ equals ∷ value

abbrev pub more_cookies : HashMap Text → Text
more_cookies [] = []
more_cookies ((name, value) ∷ rest) =
    semicolon ∷ space ∷ name ++ (equals ∷ value ++ more_cookies rest)

abbrev pub AreCookies : HashMap Text → Type 0
AreCookies [] = Unit {0}
AreCookies ((name, value) ∷ rest) = Every name_byte name × Every value_byte value × AreCookies rest

-- Text without a separator is one part with what follows up to the next one.
split-append :
    (xs ys : Text)
    → Every (λ byte. not (byte == semicolon)) xs
    → (part : Text) (parts : List Text) → split semicolon ys ≡ part ∷ parts
    → split semicolon (xs ++ ys) ≡ (xs ++ part) ∷ parts
unfolding split
split-append [] ys e part parts h = h
split-append (x ∷ xs) ys e part parts h = ground (arith, split-append xs ys e.1 part parts h)

split_pair-append :
    (name value : Text)
    → Every name_byte name
    → split_pair (name ++ (equals ∷ value)) ≡ some (name, value)
unfolding split_pair
split_pair-append [] value h = refl
split_pair-append (x ∷ name) value h = ground (arith, split_pair-append name value h.1)

Every-append : (p : ℕ → Bool) (xs ys : Text) → Every p xs → Every p ys → Every p (xs ++ ys)
Every-append p [] ys h k = k
Every-append p (x ∷ xs) ys h k = (h.0, Every-append p xs ys h.1 k)

Every-reverse : (p : ℕ → Bool) (xs : Text) → Every p xs → Every p (reverse xs)
Every-reverse p [] h = tt
Every-reverse p (x ∷ xs) h =
    rw (reverse-cons x xs) (Every-append p (reverse xs) (x ∷ []) (Every-reverse p xs h.1) (h.0, tt))

Every-weaken :
    (p q : ℕ → Bool) (xs : Text)
    → ((byte : ℕ) → p byte ≡ true → q byte ≡ true)
    → Every p xs
    → Every q xs
Every-weaken p q [] w h = tt
Every-weaken p q (x ∷ xs) w h = (w x h.0, Every-weaken p q xs w h.1)

abbrev solid : ℕ → Bool
solid byte = not (is_whitespace byte)

trim_start-solid : (xs : Text) → Every solid xs → trim_start xs ≡ xs
unfolding trim_start
trim_start-solid [] h = refl
trim_start-solid (x ∷ xs) h = ground (arith, h.0)

-- Text without white space, also after one space, is what `trim` leaves.
trim-solid : (xs : Text) → Every solid xs → (trim xs ≡ xs) × (trim (space ∷ xs) ≡ xs)
unfolding trim trim_start
trim-solid xs h =
    let core : reverse (trim_start (reverse xs)) ≡ xs =
      ap reverse (trim_start-solid (reverse xs) (Every-reverse solid xs h)) ∙ reverse-reverse xs in
    let start = trim_start-solid xs h in
    (
      ap (λ (t : Text). reverse (trim_start (reverse t))) start ∙ core,
      ap (λ (t : Text). reverse (trim_start (reverse t))) start ∙ core,
    )

pair-Every :
    (p : ℕ → Bool) (name value : Text)
    → ((byte : ℕ) → value_byte byte ≡ true → p byte ≡ true)
    → p equals ≡ true
    → Every name_byte name
    → Every value_byte value
    → Every p (pair_text name value)
pair-Every p name value w e n v =
    Every-append p name (equals ∷ value)
      (Every-weaken name_byte p name (λ byte h. w byte (ground arith)) n)
      (e, Every-weaken value_byte p value w v)

-- The parts that `split` makes of the pairs after the first one.
abbrev tail_parts : HashMap Text → List Text
tail_parts [] = []
tail_parts ((name, value) ∷ rest) = (space ∷ pair_text name value) ∷ tail_parts rest

split-pair_text :
    (xs : Text) (name value : Text) (rest : HashMap Text)
    → Every (λ byte. not (byte == semicolon)) xs
    → Every name_byte name
    → Every value_byte value
    → split semicolon (more_cookies rest) ≡ [] ∷ tail_parts rest
    → split semicolon (xs ++ (name ++ (equals ∷ value ++ more_cookies rest)))
      ≡ (xs ++ pair_text name value) ∷ tail_parts rest
split-pair_text xs name value rest x n v later =
    let regroup : xs ++ (name ++ (equals ∷ value ++ more_cookies rest))
        ≡ (xs ++ pair_text name value) ++ more_cookies rest =
      simp append_assoc in
    let clean =
      Every-append (λ byte. not (byte == semicolon)) xs (pair_text name value) x
        (pair-Every (λ byte. not (byte == semicolon)) name value (λ byte h. ground arith) refl n
          v) in
    ap (split semicolon) regroup
    ∙ split-append (xs ++ pair_text name value) (more_cookies rest) clean [] (tail_parts rest) later
    ∙ ap (λ (t : Text). t ∷ tail_parts rest) (append-nil (xs ++ pair_text name value))

split-more_cookies :
    (rest : HashMap Text)
    → AreCookies rest
    → split semicolon (more_cookies rest) ≡ [] ∷ tail_parts rest
unfolding split
split-more_cookies [] c = refl
split-more_cookies ((name, value) ∷ rest) c =
    let later =
      split-pair_text (space ∷ []) name value rest (refl, tt) c.0 c.1
        (split-more_cookies rest c.2) in
    ap (λ (t : List Text). [] ∷ t) later

find_pair-part :
    (key name value part : Text) (parts : List Text)
    → trim part ≡ pair_text name value
    → Every name_byte name
    → find_pair key (part ∷ parts) ≡ (if text_eq name key then some value else find_pair key parts)
find_pair-part key name value part parts e n =
    unfold find_pair in rw (e, find_pair, split_pair-append name value n) refl

pair_trimmed :
    (name value : Text)
    → Every name_byte name
    → Every value_byte value
    → (trim (pair_text name value) ≡ pair_text name value)
      × (trim (space ∷ pair_text name value) ≡ pair_text name value)
pair_trimmed name value n v =
    trim-solid (pair_text name value)
      (pair-Every solid name value (λ byte h. ground arith) refl n v)

find_pair-tail_parts :
    (key : Text) (rest : HashMap Text)
    → AreCookies rest
    → find_pair key (tail_parts rest) ≡ lookup key rest
unfolding lookup
find_pair-tail_parts key [] c = unfold find_pair in refl
find_pair-tail_parts key ((name, value) ∷ rest) c =
    find_pair-part key name value _ (tail_parts rest) (pair_trimmed name value c.0 c.1).1 c.0
    ∙ rw (find_pair-tail_parts key rest c.2) refl

-- In a header that lists cookies, with no separator or white space in their names and values,
-- `session_cookie_value` finds the value of the first cookie of the name.
pub session_cookie_value-lookup :
    (key name value : Text) (rest : HashMap Text)
    → AreCookies ((name, value) ∷ rest)
    → session_cookie_value (some (name ++ (equals ∷ value ++ more_cookies rest))) key
      ≡ lookup key ((name, value) ∷ rest)
session_cookie_value-lookup key name value rest c =
    let parts = split-pair_text [] name value rest tt c.0 c.1 (split-more_cookies rest c.2) in
    let first =
      find_pair-part key name value _ (tail_parts rest) (pair_trimmed name value c.0 c.1).0 c.0 in
    unfold session_cookie_value lookup in rw (parts, first, find_pair-tail_parts key rest c.2) refl
