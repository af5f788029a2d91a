-- ===== src/Certificate/Groups.antt =====
-- src/cert-generator/validation.ts: groups of hexadecimal digits with colons between, and where a
-- double colon stands among them.
use opcua_light_server.Prelude.{
  ◌≡◌, refl, sym, ap, ◌∙◌, ◌↔◌, ◌⊎◌, inl, inr, Bool, true, false, List, [], ◌∷◌, ◌++◌, ◌==◌, ◌||◌,
  ℕ, suc, All, all, any, arith, is_empty, length, Text, split, split_from, Bool-cases,
}
use opcua_light_server.Certificate.{is_hex, is_group, count_double_colons, split_double_colon}
use opcua_light_server.Certificate.Texts.{IsIn, all-All}

abbrev pub IsHex : ℕ → Type 0
IsHex c = IsIn 48 57 c ⊎ (IsIn 97 102 c ⊎ IsIn 65 70 c)

-- One to four hexadecimal digits.
abbrev pub IsGroup : Text → Type 0
IsGroup g = IsIn 1 4 (length g) × All IsHex g

-- The groups with colons between.
abbrev pub join : List Text → Text
join [] = []
join (g ∷ []) = g
join (g ∷ h ∷ gs) = g ++ 58 ∷ join (h ∷ gs)

is_hex_iff : (c : ℕ) → (is_hex c ≡ true) ↔ IsHex c
unfolding is_hex
is_hex_iff c = ground arith

is_group_iff : (g : Text) → (is_group g ≡ true) ↔ IsGroup g
unfolding is_group
is_group_iff g = ground (arith, all-All is_hex g is_hex_iff)

pub groups_iff : (gs : List Text) → (all is_group gs ≡ true) ↔ All IsGroup gs
groups_iff gs = all-All is_group gs is_group_iff

append_assoc : (xs ys zs : Text) → (xs ++ ys) ++ zs ≡ xs ++ (ys ++ zs)
append_assoc [] ys zs = refl
append_assoc (x ∷ xs) ys zs = ap (λ l. x ∷ l) (append_assoc xs ys zs)

append-nil : (xs : Text) → xs ++ [] ≡ xs
append-nil [] = refl
append-nil (x ∷ xs) = ap (λ l. x ∷ l) (append-nil xs)

join-cons : (g : Text) (gs : List Text) → is_empty gs ≡ false → join (g ∷ gs) ≡ g ++ 58 ∷ join gs
join-cons g [] e = cc
join-cons g (h ∷ gs) e = refl

split_from-not_empty : (current t : Text) → is_empty (split_from 58 current t) ≡ false
unfolding split_from
split_from-not_empty current [] = refl
split_from-not_empty current (c ∷ t) = ground (arith, split_from-not_empty (current ++ c ∷ []) t)

pub join-split_from : (current t : Text) → join (split_from 58 current t) ≡ current ++ t
unfolding split_from
join-split_from current [] = sym (append-nil current)
join-split_from current (c ∷ t) = elim (Bool-cases (c == 58)) [
  | inl e ↦
      let colon : 58 ≡ c = ground (arith, e) in
      rw e (
        join-cons current (split_from 58 [] t) (split_from-not_empty [] t)
        ∙ ap (λ l. current ++ 58 ∷ l) (join-split_from [] t)
        ∙ ap (λ d. current ++ d ∷ t) colon)
  | inr e ↦ rw e (join-split_from (current ++ c ∷ []) t ∙ append_assoc current (c ∷ []) t)
]

not_colon : (c : ℕ) → IsHex c → ((c == 58) ≡ false) × ((c == 37) ≡ false)
not_colon c h = ground (arith, h)

-- A group has no colon, so that it is one part.
split_from-group :
    (g current t : Text)
    → All IsHex g
    → split_from 58 current (g ++ 58 ∷ t) ≡ (current ++ g) ∷ split_from 58 [] t
unfolding split_from
split_from-group [] current t h = rw (append-nil current) refl
split_from-group (c ∷ g) current t h = rw (not_colon c h.0).0 (
    split_from-group g (current ++ c ∷ []) t h.1
    ∙ ap (λ l. l ∷ split_from 58 [] t) (append_assoc current (c ∷ []) g))

split_from-last : (g current : Text) → All IsHex g → split_from 58 current g ≡ (current ++ g) ∷ []
unfolding split_from
split_from-last [] current h = rw (append-nil current) refl
split_from-last (c ∷ g) current h =
    rw (not_colon c h.0).0 (
      split_from-last g (current ++ c ∷ []) h.1
      ∙ ap (λ l. l ∷ []) (append_assoc current (c ∷ []) g))

pub split-join :
    (g : Text) (gs : List Text) → All IsGroup (g ∷ gs) → split 58 (join (g ∷ gs)) ≡ g ∷ gs
unfolding split
split-join g [] h = split_from-last g [] h.0.1
split-join g (k ∷ gs) h =
    split_from-group g [] (join (k ∷ gs)) h.0.1 ∙ ap (λ l. g ∷ l) (split-join k gs h.1)

-- A character that is no colon goes to the left part, and adds no double colon.
split_double_colon-cons :
    (c : ℕ) (t : Text)
    → (c == 58) ≡ false
    → (split_double_colon (c ∷ t) ≡ (c ∷ (split_double_colon t).0, (split_double_colon t).1))
      × (count_double_colons (c ∷ t) ≡ count_double_colons t)
unfolding split_double_colon count_double_colons
split_double_colon-cons c [] e = (refl, refl)
split_double_colon-cons c (d ∷ t) e = (rw e refl, ground (arith, e))

hex_run :
    (g t : Text)
    → All IsHex g
    → (split_double_colon (g ++ t) ≡ (g ++ (split_double_colon t).0, (split_double_colon t).1))
      × (count_double_colons (g ++ t) ≡ count_double_colons t)
hex_run [] t h = (refl, refl)
hex_run (c ∷ g) t h =
    let a = split_double_colon-cons c (g ++ t) (not_colon c h.0).0 in
    let b = hex_run g t h.1 in (a.0 ∙ ap (λ (p : Text × Text). (c ∷ p.0, p.1)) b.0, a.1 ∙ b.1)

-- A colon before a group is a single one.
colon_run :
    (k : Text) (gs : List Text) (w : Text)
    → IsGroup k
    → let t = join (k ∷ gs) ++ w in
      (split_double_colon (58 ∷ t) ≡ (58 ∷ (split_double_colon t).0, (split_double_colon t).1))
      × (count_double_colons (58 ∷ t) ≡ count_double_colons t)
unfolding split_double_colon count_double_colons
colon_run [] gs w h = absurd (ground (arith, h.0))
colon_run (d ∷ k) [] w h = (rw (not_colon d h.1.0).0 refl, ground (arith, (not_colon d h.1.0).0))
colon_run (d ∷ k) (g ∷ gs) w h =
    (rw (not_colon d h.1.0).0 refl, ground (arith, (not_colon d h.1.0).0))

pub join_run :
    (gs : List Text) (r : Text)
    → All IsGroup gs
    → (split_double_colon (join gs ++ 58 ∷ 58 ∷ r) ≡ (join gs, r))
      × (count_double_colons (join gs ++ 58 ∷ 58 ∷ r) ≡ suc (count_double_colons r))
unfolding split_double_colon count_double_colons
join_run [] r h = (refl, refl)
join_run (g ∷ []) r h =
    let a = hex_run g (58 ∷ 58 ∷ r) h.0.1 in (a.0 ∙ ap (λ l. (l, r)) (append-nil g), a.1)
join_run (g ∷ k ∷ gs) r h =
    let w = 58 ∷ 58 ∷ r in
    let a = hex_run g (58 ∷ (join (k ∷ gs) ++ w)) h.0.1 in
    let b = colon_run k gs w h.1.0 in
    let c = join_run (k ∷ gs) r h.1 in
    let e = append_assoc g (58 ∷ join (k ∷ gs)) w in
    (
      ap split_double_colon e
          ∙ a.0
          ∙ ap (λ (p : Text × Text). (g ++ p.0, p.1)) b.0
          ∙ ap (λ (p : Text × Text). (g ++ 58 ∷ p.0, p.1)) c.0,
      ap count_double_colons e ∙ a.1 ∙ b.1 ∙ c.1,
    )

pub count-join : (gs : List Text) → All IsGroup gs → count_double_colons (join gs) ≡ 0
unfolding count_double_colons
count-join [] h = refl
count-join (g ∷ []) h = sym (ap count_double_colons (append-nil g)) ∙ (hex_run g [] h.0.1).1
count-join (g ∷ k ∷ gs) h =
    (hex_run g (58 ∷ join (k ∷ gs)) h.0.1).1
    ∙ sym (ap (λ t. count_double_colons (58 ∷ t)) (append-nil (join (k ∷ gs))))
    ∙ (colon_run k gs [] h.1.0).1
    ∙ ap count_double_colons (append-nil (join (k ∷ gs)))
    ∙ count-join (k ∷ gs) h.1

abbrev pub has_percent : Text → Bool
has_percent = any (λ c. c == 37)

pub has_percent-append : (s t : Text) → has_percent (s ++ t) ≡ (has_percent s || has_percent t)
has_percent-append [] t = refl
has_percent-append (c ∷ s) t = ground (arith, has_percent-append s t)

has_percent-hex : (g : Text) → All IsHex g → has_percent g ≡ false
has_percent-hex [] h = refl
has_percent-hex (c ∷ g) h = ground (arith, not_colon c h.0, has_percent-hex g h.1)

pub has_percent-join : (gs : List Text) → All IsGroup gs → has_percent (join gs) ≡ false
has_percent-join [] h = refl
has_percent-join (g ∷ []) h = has_percent-hex g h.0.1
has_percent-join (g ∷ k ∷ gs) h = ground (
  arith,
  has_percent-append g (58 ∷ join (k ∷ gs)),
  has_percent-hex g h.0.1,
  has_percent-join (k ∷ gs) h.1,
)
