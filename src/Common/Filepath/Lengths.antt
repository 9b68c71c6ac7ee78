-- ===== src/Common/Filepath/Lengths.antt =====
-- filepath.Dir, on which the loop of resolveSymlinks in common/pathutil.go rests: how long its result is.
use echolist_backend.Base.{
  ℕ, ◌+◌, ◌-◌, ◌≤◌, ◌<◌, Bool, true, false, List, [], ◌∷◌, ◌++◌, any, length, length-append, ◌==◌,
  if◌then◌else◌, Bytes, bytes, str_eq, str_eq_iff, Bool-cases, ◌⊎◌, inl, inr, ◌≡◌, refl, sym, ap,
  ◌∙◌, arith,
}
use mathlib.Core.List.{reverse, reverse_aux}
use echolist_backend.Common.Filepath.{
  cons_byte, split, join_segments, dot, dot_dot, is_rooted, go_up, keep_segment, clean_from,
  clean_segments, or_dot, clean, dir_part, dir,
}

-- The bytes of the segments, with a separator for each.
abbrev weight : List Bytes → ℕ
weight [] = 0
weight (s ∷ ss) = length s + 1 + weight ss

-- The same, without the empty segments.
abbrev solid : List Bytes → ℕ
solid [] = 0
solid (s ∷ ss) = (if str_eq s [] then 0 else length s + 1) + solid ss

solid-le : (ss : List Bytes) → solid ss ≤ weight ss
solid-le [] = omega arith
solid-le (s ∷ ss) = ground (arith, solid-le ss)

solid-append : (ss ts : List Bytes) → solid (ss ++ ts) ≡ solid ss + solid ts
solid-append [] ts = omega arith
solid-append (s ∷ ss) ts = omega (arith, solid-append ss ts)

abbrev ends_slash : Bytes → Bool
ends_slash [] = false
ends_slash (c ∷ []) = c == b'/'
ends_slash (c ∷ d ∷ s) = ends_slash (d ∷ s)

-- The last segment of a text that ends in a separator is empty.
abbrev LastEmpty : Bytes → Type 0
LastEmpty s =
    (first : Bytes) × (mid : List Bytes) × (split s ≡ first ∷ (mid ++ ([] ∷ [])))
    × (weight (first ∷ mid) ≤ length s)

split_slash : (c : ℕ) (s : Bytes) → (c == b'/') ≡ true → split (c ∷ s) ≡ [] ∷ split s
unfolding split
split_slash c s h = rw h

split_other : (c : ℕ) (s : Bytes) → (c == b'/') ≡ false → split (c ∷ s) ≡ cons_byte c (split s)
unfolding split
split_other c s h = rw h

split_nil : split [] ≡ [] ∷ []
unfolding split
split_nil = refl

last_empty : (s : Bytes) → ends_slash s ≡ true → LastEmpty s
last_empty [] h = ground arith
last_empty (c ∷ []) h = ([], [], split_slash c [] h ∙ one, omega arith)
  where
    one : [] ∷ split [] ≡ [] ∷ ([] ∷ [])
    one = ap (λ ss. [] ∷ ss) split_nil
last_empty (c ∷ d ∷ s) h =
    let (first, mid, e, w) = last_empty (d ∷ s) h in
    elim (Bool-cases (c == b'/')) [
      | inl g ↦ ([], first ∷ mid, split_slash c (d ∷ s) g ∙ ap (λ ss. [] ∷ ss) e, omega (arith, w))
      | inr g ↦ (c ∷ first, mid, split_other c (d ∷ s) g ∙ ap (cons_byte c) e, omega (arith, w))
    ]

solid-split-le : (s : Bytes) → ends_slash s ≡ true → solid (split s) ≤ length s
unfolding str_eq
solid-split-le s h =
    let (first, mid, e, w) = last_empty s h in
    let same = ap solid e in
    let parts = solid-append (first ∷ mid) ([] ∷ []) in
    let light = solid-le (first ∷ mid) in lighter same parts light w
  where
    lighter : {a b c d n : ℕ} → a ≡ b → b ≡ c + solid ([] ∷ []) → c ≤ d → d ≤ n → a ≤ n
    lighter p q r t = omega (arith, p, q, r, t)

-- Clean keeps segments of the text, or ".." in the place of one.
go_up-weight : (r : Bool) (kept : List Bytes) → weight (go_up r kept) ≤ weight kept + 3
unfolding str_eq
go_up-weight r [] = ground arith
go_up-weight r (s ∷ kept) = ground arith

kept_weight :
    (r a b : Bool) (kept : List Bytes) (s : Bytes)
    → (b ≡ true → length s ≡ 2)
    → weight (if a then kept else if b then go_up r kept else s ∷ kept)
      ≤ weight kept + (length s + 1)
kept_weight r true b kept s h = omega arith
kept_weight r false true kept s h = omega (arith, go_up-weight r kept, h refl)
kept_weight r false false kept s h = omega arith

keep_segment-weight :
    (r : Bool) (kept : List Bytes) (s : Bytes)
    → weight (keep_segment r kept s) ≤ weight kept + solid (s ∷ [])
unfolding str_eq
keep_segment-weight r kept [] = omega arith
keep_segment-weight r kept (c ∷ s) =
    let bound =
      kept_weight r (str_eq (c ∷ s) dot) (str_eq (c ∷ s) dot_dot) kept (c ∷ s)
        (λ h. ap length ((str_eq_iff (c ∷ s) dot_dot).0 h)) in
    omega (arith, bound)

reverse_aux-weight : (ss ts : List Bytes) → weight (reverse_aux ss ts) ≡ weight ss + weight ts
reverse_aux-weight [] ts = omega arith
reverse_aux-weight (s ∷ ss) ts = reverse_aux-weight ss (s ∷ ts) ∙ omega arith

reverse-weight : (ss : List Bytes) → weight (reverse ss) ≡ weight ss
reverse-weight ss = reverse_aux-weight ss [] ∙ omega arith

clean_from-weight :
    (r : Bool) (kept ss : List Bytes) → weight (clean_from r kept ss) ≤ weight kept + solid ss
unfolding clean_from
clean_from-weight r kept [] = omega (arith, reverse-weight kept)
clean_from-weight r kept (s ∷ ss) =
    omega (arith, keep_segment-weight r kept s, clean_from-weight r (keep_segment r kept s) ss)

length-join_segments : (ss : List Bytes) → length (join_segments ss) ≤ weight ss - 1
unfolding join_segments
length-join_segments [] = omega arith
length-join_segments (s ∷ []) = omega arith
length-join_segments (s ∷ t ∷ ss) =
    omega (arith, length-append s (b'/' ∷ join_segments (t ∷ ss)), length-join_segments (t ∷ ss))

ends_slash-cons : (c : ℕ) (s : Bytes) → ends_slash s ≡ true → ends_slash (c ∷ s) ≡ true
ends_slash-cons c [] h = ground arith
ends_slash-cons c (d ∷ s) h = h

dir_part-none : (s : Bytes) → any (λ x. x == b'/') s ≡ false → dir_part s ≡ []
unfolding dir_part
dir_part-none [] h = refl
dir_part-none (c ∷ s) h = rw h

dir_part_cons :
    (c : ℕ) (s : Bytes) → any (λ x. x == b'/') (c ∷ s) ≡ true → dir_part (c ∷ s) ≡ c ∷ dir_part s
unfolding dir_part
dir_part_cons c s h = rw h

dir_part-ends_slash : (s : Bytes) → any (λ x. x == b'/') s ≡ true → ends_slash (dir_part s) ≡ true
dir_part-ends_slash [] h = ground arith
dir_part-ends_slash (c ∷ s) h =
    ap ends_slash (dir_part_cons c s h) ∙ elim (Bool-cases (any (λ x. x == b'/') s)) [
      | inl g ↦ ends_slash-cons c (dir_part s) (dir_part-ends_slash s g)
      | inr g ↦ ap (λ t. ends_slash (c ∷ t)) (dir_part-none s g) ∙ only g
    ]
  where
    only : any (λ x. x == b'/') s ≡ false → (c == b'/') ≡ true
    only g = ground (arith, g, h)

length-dir_part : (s : Bytes) → length (dir_part s) ≤ length s
unfolding dir_part
length-dir_part [] = omega arith
length-dir_part (c ∷ s) = ground (arith, length-dir_part s)

dir_part-whole : (s : Bytes) → (length (dir_part s) < length s) ⊎ (dir_part s ≡ s)
dir_part-whole [] = inr (dir_part-none [] refl)
dir_part-whole (c ∷ s) = elim (Bool-cases (any (λ x. x == b'/') (c ∷ s))) [
  | inr g ↦ inl (omega (arith, ap length (dir_part-none (c ∷ s) g)))
  | inl g ↦ elim (dir_part-whole s) [
    | inl a ↦ inl (omega (arith, ap length (dir_part_cons c s g), a))
    | inr a ↦ inr (dir_part_cons c s g ∙ ap (λ t. c ∷ t) a)
  ]
]

-- Clean of a text that ends in a separator is shorter, but for "." and the root.
abbrev Shorter : Bytes → Type 0
Shorter p = (length (clean p) < length p) ⊎ ((clean p ≡ dot) ⊎ (clean p ≡ p))

clean-rel : (p : Bytes) → is_rooted p ≡ false → clean p ≡ or_dot (join_segments (clean_segments p))
unfolding clean
clean-rel p h = rw h

clean-rooted : (p : Bytes) → is_rooted p ≡ true → clean p ≡ b'/' ∷ join_segments (clean_segments p)
unfolding clean
clean-rooted p h = rw h

clean_segments-weight : (p : Bytes) → weight (clean_segments p) ≤ solid (split p)
unfolding clean_segments
clean_segments-weight p = omega (arith, clean_from-weight (is_rooted p) [] (split p))

clean-Shorter_rel : (p : Bytes) → is_rooted p ≡ false → ends_slash p ≡ true → Shorter p
clean-Shorter_rel p h e =
    by_text (join_segments (clean_segments p)) (clean-rel p h)
      (length-join_segments (clean_segments p)) (clean_segments-weight p) (solid-split-le p e)
  where
    by_text :
        (t : Bytes)
        → clean p ≡ or_dot t
        → length t ≤ weight (clean_segments p) - 1
        → weight (clean_segments p) ≤ solid (split p)
        → solid (split p) ≤ length p
        → Shorter p
    by_text [] q a b c = inr (inl q)
    by_text (x ∷ t) q a b c = inl (omega (arith, ap length q, a, b, c))

clean_nil : clean [] ≡ dot
unfolding clean str_eq
clean_nil = refl

clean_root : clean (bytes "/") ≡ bytes "/"
unfolding clean str_eq
clean_root = refl

clean-Shorter_root :
    (c : ℕ) (s : Bytes) → (c == b'/') ≡ true → ends_slash (c ∷ s) ≡ true → Shorter (c ∷ s)
unfolding str_eq
clean-Shorter_root c [] h e =
    inr (inr (ap (λ x. clean (x ∷ [])) slash ∙ clean_root ∙ sym (ap (λ x. x ∷ []) slash)))
  where
    slash : c ≡ b'/'
    slash = ground (arith, h)
clean-Shorter_root c (d ∷ s) h e = inl (
    omega (
      arith,
      ap length (clean-rooted (c ∷ d ∷ s) h),
      length-join_segments (clean_segments (c ∷ d ∷ s)),
      clean_segments-weight (c ∷ d ∷ s),
      ap solid (split_slash c (d ∷ s) h),
      solid-split-le (d ∷ s) e,
    ))

clean-Shorter : (p : Bytes) → ends_slash p ≡ true → Shorter p
clean-Shorter [] e = ground arith
clean-Shorter (c ∷ s) e = elim (Bool-cases (c == b'/')) [
  | inl h ↦ clean-Shorter_root c s h e
  | inr h ↦ clean-Shorter_rel (c ∷ s) h e
]

-- Dir of a path is the same path, ".", or shorter.
pub dir-shorter : (p : Bytes) → (length (dir p) < length p) ⊎ ((dir p ≡ dot) ⊎ (dir p ≡ p))
unfolding dir
dir-shorter p = elim (Bool-cases (any (λ x. x == b'/') p)) [
  | inl h ↦ elim (clean-Shorter (dir_part p) (dir_part-ends_slash p h)) [
    | inl a ↦ inl (omega (arith, a, length-dir_part p))
    | inr (inl a) ↦ inr (inl a)
    | inr (inr a) ↦ elim (dir_part-whole p) [
      | inl b ↦ inl (omega (arith, ap length a, b))
      | inr b ↦ inr (inr (a ∙ b))
    ]
  ]
  | inr h ↦ inr (inl (ap clean (dir_part-none p h) ∙ clean_nil))
]
