-- ===== src/Server/Sources/Splits.antt =====
-- src/server/auth.rs: the addresses of a header whose value was appended to.
use Prim.Native.Char.{Char, code}
use Prim.Native.String.{[] as empty, ◌∷◌ as prefix, ◌++◌ as append}
use text.Mathlib.TextLemmas.{cons-append, nil-append}
use mathlib.Core.List.{append_assoc}
use rs_llmctl.Base.{
  ℕ, String, Option, none, some, ◌≡◌, refl, sym, ap, ◌∙◌, inl, inr, List, [], ◌∷◌, ◌++◌, arith,
  ◌==◌, Bool-cases,
}
use rs_llmctl.Server.Sources.{
  Addresses, IpAddr, cons_some, split, push_first, filter_map, flat_map, x_forwarded_values,
  parse_forwarded_ip, first_untrusted_forwarded_ip,
}

abbrev comma : Char
comma = ","

push_first-append :
    (c : Char) (k : ℕ) (s : String) (later : List String)
    → push_first c (split k s ++ later) ≡ push_first c (split k s) ++ later
push_first-append c k String.[] later = refl
push_first-append c k (String.◌∷◌ d s) later = elim (Bool-cases (code d == k)) [
  | inl e ↦ rw e
  | inr e ↦ rw e (push_twice (split k s))
]
  where
    push_twice :
        (parts : List String)
        → push_first c (push_first d parts ++ later) ≡ push_first c (push_first d parts) ++ later
    push_twice [] = refl
    push_twice (part ∷ parts) = refl

comma-append : (t : String) → append "," t ≡ prefix comma t
comma-append t = cons-append comma empty t ∙ ap (prefix comma) (nil-append t)

split-append : (s t : String) → split 44 (append s (append "," t)) ≡ split 44 s ++ split 44 t
split-append String.[] t = ap (split 44) (nil-append (append "," t) ∙ comma-append t)
split-append (String.◌∷◌ c s) t =
    ap (split 44) (cons-append c s (append "," t)) ∙ elim (Bool-cases (code c == 44)) [
      | inl e ↦ rw e (ap (λ parts. empty ∷ parts) (split-append s t))
      | inr e ↦ rw e (ap (push_first c) (split-append s t) ∙ push_first-append c 44 s (split 44 t))
    ]

cons_some-append {ℓ} :
    {B : Type ℓ} (o : Option B) (xs ys : List B) → cons_some o (xs ++ ys) ≡ cons_some o xs ++ ys
cons_some-append none xs ys = refl
cons_some-append (some y) xs ys = refl

filter_map-append {ℓ κ} :
    {A : Type ℓ} {B : Type κ} (f : A → Option B) (xs ys : List A)
    → filter_map f (xs ++ ys) ≡ filter_map f xs ++ filter_map f ys
filter_map-append f [] ys = refl
filter_map-append f (x ∷ xs) ys =
    ap (cons_some (f x)) (filter_map-append f xs ys)
    ∙ cons_some-append (f x) (filter_map f xs) (filter_map f ys)

pub flat_map-append {ℓ κ} :
    {A : Type ℓ} {B : Type κ} (f : A → List B) (xs ys : List A)
    → flat_map f (xs ++ ys) ≡ flat_map f xs ++ flat_map f ys
flat_map-append f [] ys = refl
flat_map-append f (x ∷ xs) ys =
    ap (λ l. f x ++ l) (flat_map-append f xs ys)
    ∙ sym (append_assoc (f x) (flat_map f xs) (flat_map f ys))

-- the later answer where there is one
abbrev pub later_or : Option String → Option String → Option String
later_or (some later) earlier = some later
later_or none earlier = earlier

module _ (net : Addresses) where
  pub x_forwarded_values-append :
      (s t : String)
      → x_forwarded_values net (append s (append "," t))
        ≡ x_forwarded_values net s ++ x_forwarded_values net t
  unfolding x_forwarded_values
  x_forwarded_values-append s t =
      ap (filter_map (parse_forwarded_ip net)) (split-append s t)
      ∙ filter_map-append (parse_forwarded_ip net) (split 44 s) (split 44 t)

  pub first_untrusted-append :
      (proxies : List String) (xs ys : List IpAddr)
      → first_untrusted_forwarded_ip net proxies (xs ++ ys)
        ≡ later_or
            (first_untrusted_forwarded_ip net proxies ys)
            (first_untrusted_forwarded_ip net proxies xs)
  unfolding first_untrusted_forwarded_ip
  first_untrusted-append proxies [] ys = ground arith
  first_untrusted-append proxies (x ∷ xs) ys = ground (arith, first_untrusted-append proxies xs ys)
