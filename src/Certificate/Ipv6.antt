-- ===== src/Certificate/Ipv6.antt =====
-- src/cert-generator/validation.ts: which texts `isValidIpv6` and `validateIpAddress` accept.
use opcua_light_server.Prelude.{
  ◌≡◌, refl, sym, ap, ◌∙◌, ◌↔◌, ◌⊎◌, inl, inr, ◌≤◌, ◌+◌, Bool, true, false, List, [], ◌∷◌, ◌++◌,
  ◌==◌, ◌&&◌, ◌||◌, not, ℕ, suc, All, all, leb, arith, is_empty, length, length-append,
  is_empty-append, trim, Text, split, split_from, Bool-cases, if◌then◌else◌,
}
use opcua_light_server.Certificate.{
  is_valid_ipv4, is_valid_ipv6, validate_ip_address, is_group, count_double_colons,
  split_double_colon, parts_of,
}
use opcua_light_server.Certificate.Texts.{IsDotted, is_valid_ipv4_iff}
use opcua_light_server.Certificate.Groups.{
  IsGroup, join, groups_iff, join-split_from, split-join, join_run, count-join, has_percent,
  has_percent-append, has_percent-join,
}

-- Around the first double colon.
around_double_colon :
    (t : Text)
    → (count_double_colons t == 0) ≡ false
    → t ≡ (split_double_colon t).0 ++ 58 ∷ 58 ∷ (split_double_colon t).1
unfolding split_double_colon count_double_colons
around_double_colon [] e = cc
around_double_colon (c ∷ []) e = cc
around_double_colon (c ∷ d ∷ s) e = elim (Bool-cases (c == 58 && d == 58)) [
  | inl h ↦ ground (arith, h)
  | inr h ↦ rw h (ap (λ l. c ∷ l) (around_double_colon (d ∷ s) (ground (arith, e, h))))
]

join-parts_of : (t : Text) → join (parts_of t) ≡ t
unfolding parts_of split
join-parts_of [] = refl
join-parts_of (c ∷ t) = join-split_from [] (c ∷ t)

is_empty-join : (g : Text) (gs : List Text) → IsGroup g → is_empty (join (g ∷ gs)) ≡ false
is_empty-join [] gs h = absurd (ground (arith, h.0))
is_empty-join (c ∷ g) [] h = refl
is_empty-join (c ∷ g) (k ∷ gs) h = refl

parts_of-join : (gs : List Text) → All IsGroup gs → parts_of (join gs) ≡ gs
unfolding parts_of
parts_of-join [] h = refl
parts_of-join (g ∷ gs) h = rw (is_empty-join g gs h.0) (split-join g gs h)

all-append : (gs hs : List Text) → all is_group (gs ++ hs) ≡ (all is_group gs && all is_group hs)
all-append [] hs = refl
all-append (g ∷ gs) hs = ground (arith, all-append gs hs)

-- Eight groups.
abbrev pub IsFull : Text → Type 0
IsFull t = (gs : List Text) × (length gs ≡ 8) × All IsGroup gs × (t ≡ join gs)

-- Up to seven groups, with "::" before, between or behind them.
abbrev pub IsShort : Text → Type 0
IsShort t =
    (gs : List Text) × (hs : List Text) × (length gs + length hs ≤ 7)
    × All IsGroup gs
    × All IsGroup hs
    × (t ≡ join gs ++ 58 ∷ 58 ∷ join hs)

abbrev pub IsIpv6 : Text → Type 0
IsIpv6 t = IsFull t ⊎ IsShort t

eight_accepted : (gs : List Text) → length gs ≡ 8 → All IsGroup gs → is_valid_ipv6 (join gs) ≡ true
unfolding is_valid_ipv6
eight_accepted [] l h = cc
eight_accepted (g ∷ gs) l h =
    rw
      (
        is_valid_ipv6,
        count-join (g ∷ gs) h,
        is_empty-join g gs h.0,
        has_percent-join (g ∷ gs) h,
        split-join g gs h,
      )
      (ground (arith, l, (groups_iff (g ∷ gs)).1 h))

seven_accepted :
    (gs hs : List Text)
    → length gs + length hs ≤ 7
    → All IsGroup gs
    → All IsGroup hs
    → is_valid_ipv6 (join gs ++ 58 ∷ 58 ∷ join hs) ≡ true
unfolding is_valid_ipv6
seven_accepted gs hs l h k =
    let t = join gs ++ 58 ∷ 58 ∷ join hs in
    let r = join_run gs (join hs) h in
    let c : count_double_colons t ≡ 1 = r.1 ∙ ap suc (count-join hs k) in
    let p : has_percent t ≡ false = ground (
      arith,
      has_percent-append (join gs) (58 ∷ 58 ∷ join hs),
      has_percent-join gs h,
      has_percent-join hs k,
    ) in
    let e : is_empty t ≡ false = ground (arith, is_empty-append (join gs) (58 ∷ 58 ∷ join hs)) in
    let s : (leb (length (gs ++ hs)) 7 && all is_group (gs ++ hs)) ≡ true =
      ground (
        arith,
        l,
        length-append gs hs,
        all-append gs hs,
        (groups_iff gs).1 h,
        (groups_iff hs).1 k,
      ) in
    rw (is_valid_ipv6, c, e, p, r.0, parts_of-join gs h, parts_of-join hs k) s

eight_groups :
    (t : Text) → (length (split 58 t) == 8 && all is_group (split 58 t)) ≡ true → IsFull t
unfolding split
eight_groups t e = (
  split 58 t,
  ground (arith, e),
  (groups_iff (split 58 t)).0 (ground (arith, e)),
  sym (join-split_from [] t),
)

seven_groups :
    (t : Text)
    → (count_double_colons t == 0) ≡ false
    → let short = parts_of (split_double_colon t).0 ++ parts_of (split_double_colon t).1 in
      (leb (length short) 7 && all is_group short) ≡ true → IsShort t
seven_groups t c e =
    let gs = parts_of (split_double_colon t).0 in
    let hs = parts_of (split_double_colon t).1 in
    (
      gs,
      hs,
      ground (arith, e, length-append gs hs),
      (groups_iff gs).0 (ground (arith, e, all-append gs hs)),
      (groups_iff hs).0 (ground (arith, e, all-append gs hs)),
      around_double_colon t c
          ∙ ap (λ l. l ++ 58 ∷ 58 ∷ (split_double_colon t).1)
              (sym (join-parts_of (split_double_colon t).0))
          ∙ ap (λ r. join gs ++ 58 ∷ 58 ∷ r) (sym (join-parts_of (split_double_colon t).1)),
    )

one_double_colon : (n : ℕ) → (n == 1) ≡ true → (n == 0) ≡ false
one_double_colon n e = ground (arith, e)

chosen :
    (refused short a b : Bool)
    → (if refused then false else if short then a else b) ≡ true
    → (short ≡ true → a ≡ true) × (short ≡ false → b ≡ true)
chosen refused short a b e = ground (arith, e)

is_valid_ipv6_iff : (t : Text) → (is_valid_ipv6 t ≡ true) ↔ IsIpv6 t
unfolding is_valid_ipv6
is_valid_ipv6_iff t = (
  λ e. elim (Bool-cases (count_double_colons t == 1)) [
    | inl h ↦ inr (seven_groups t (one_double_colon _ h) ((chosen _ _ _ _ e).0 h))
    | inr h ↦ inl (eight_groups t ((chosen _ _ _ _ e).1 h))
  ],
  λ h. elim h [
    | inl (gs, l, g, e) ↦ ap is_valid_ipv6 e ∙ eight_accepted gs l g
    | inr (gs, hs, l, g, k, e) ↦ ap is_valid_ipv6 e ∙ seven_accepted gs hs l g k
  ],
)

or_iff : {P Q : Type 0} (a b : Bool) → (a ≡ true) ↔ P → (b ≡ true) ↔ Q → ((a || b) ≡ true) ↔ (P ⊎ Q)
or_iff a b h k = ground (arith, h, k)

empty_invalid : is_valid_ipv6 [] ≡ false
unfolding is_valid_ipv6
empty_invalid = refl

ip_iff :
    (t : Text)
    → ((not (is_empty t) && (is_valid_ipv4 t || is_valid_ipv6 t)) ≡ true) ↔ (IsDotted t ⊎ IsIpv6 t)
unfolding split split_from
ip_iff [] = (
  λ e. cc,
  λ h. elim h [
    | inl d ↦ absurd d
    | inr k ↦ absurd (ground (arith, empty_invalid, (is_valid_ipv6_iff []).1 k))
  ],
)
ip_iff (c ∷ t) =
    or_iff (is_valid_ipv4 (c ∷ t)) (is_valid_ipv6 (c ∷ t)) (is_valid_ipv4_iff (c ∷ t))
      (is_valid_ipv6_iff (c ∷ t))

pub validate_ip_address_iff :
    (t : Text) → (validate_ip_address t ≡ true) ↔ (IsDotted (trim t) ⊎ IsIpv6 (trim t))
unfolding validate_ip_address
validate_ip_address_iff t = ip_iff (trim t)
