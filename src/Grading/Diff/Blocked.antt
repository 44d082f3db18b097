-- ===== src/Grading/Diff/Blocked.antt =====
-- Which chunks of a patch touch a blocked file.
use soma_benchmark.Base.{
  ◌≡◌, ◌↔◌, ◌⊎◌, refl, sym, ap, ◌∙◌, inl, inr, Bool, true, false, not, ◌&&◌, ◌||◌, Option, none,
  some, List, [], ◌∷◌, ◌++◌, Bool-cases, Option-cases, arith,
}
use soma_benchmark.Base.Lists.{keep_if}
use soma_benchmark.Base.Text.{Text, codes, text_eq, text_eq_iff, starts_with, strip, is_empty}
use soma_benchmark.Grading.Diff.{
  among, header_files, first_line, git_header, blocked_in, is_none, sorted_two, text_leb, touched,
  is_dev_null, or_these, diff_touched_files, looks_like_test_file, blocked_files,
}

-- A test file that a diff has in a header.
abbrev pub NamesTest : Text → Text → Type 0
NamesTest diff t = (among t (diff_touched_files diff) && looks_like_test_file t) ≡ true

-- The files that a patch may not touch: the test files of the test patch, or, if it has none, all test
-- files.
abbrev pub IsBlocked : Text → Text → Text → Type 0
IsBlocked test_patch diff t =
    NamesTest test_patch t ⊎ (((u : Text) → NamesTest test_patch u → ⊥) × NamesTest diff t)

-- The first line of the chunk is the header of a blocked file.
abbrev pub Touches : Text → Text → Text → Type 0
Touches test_patch diff chunk =
    (a b : Text) × (header_files (first_line chunk) ≡ some (a, b))
    × (IsBlocked test_patch diff (strip a) ⊎ IsBlocked test_patch diff (strip b))

and_false : (b : Bool) → (b && false) ≡ false
and_false true = refl
and_false false = refl

among-keep_if :
    (p : Text → Bool) (t : Text) (us : List Text) → among t (keep_if p us) ≡ (among t us && p t)
among-keep_if p t [] = refl
among-keep_if p t (u ∷ us) = elim (Bool-cases (text_eq t u)) [
  | inl e ↦
      let q : t ≡ u = (text_eq_iff t u).0 e in
      elim (Bool-cases (p u)) [
        | inl k ↦ rw (k, e, q) (sym k)
        | inr k ↦ rw (k, among-keep_if p t us, e) (rw (q, k) (and_false (among u us)))
      ]
  | inr e ↦ elim (Bool-cases (p u)) [
    | inl k ↦ rw (k, e) (among-keep_if p t us)
    | inr k ↦ rw (k, e) (among-keep_if p t us)
  ]
]

keep_if-twice :
    (p q : Text → Bool) (us : List Text)
    → ((t : Text) → p t ≡ true → q t ≡ true)
    → keep_if p (keep_if q us) ≡ keep_if p us
keep_if-twice p q [] h = refl
keep_if-twice p q (u ∷ us) h = elim (Bool-cases (p u)) [
  | inl k ↦ rw (h u k, k) (ap (λ r. u ∷ r) (keep_if-twice p q us h))
  | inr k ↦ elim (Bool-cases (q u)) [
    | inl l ↦ rw (l, k) (keep_if-twice p q us h)
    | inr l ↦ rw (l, k) (keep_if-twice p q us h)
  ]
]

is_none-sorted_two : (ts : List Text) → is_none (sorted_two ts) ≡ is_none ts
is_none-sorted_two [] = refl
is_none-sorted_two (a ∷ []) = refl
is_none-sorted_two (a ∷ b ∷ []) = elim (Bool-cases (text_leb a b)) [
  | inl e ↦ rw e refl
  | inr e ↦ rw e refl
]
is_none-sorted_two (a ∷ b ∷ c ∷ ts) = refl

is_none-keep_two :
    (p : Text → Bool) (x y : Text) → is_none (keep_if p (x ∷ y ∷ [])) ≡ not (p x || p y)
is_none-keep_two p x y = elim (Bool-cases (p x)) [
  | inl k ↦ rw k refl
  | inr k ↦ elim (Bool-cases (p y)) [ inl l ↦ rw (k, l) refl | inr l ↦ rw (k, l) refl ]
]

-- A test file is a file.
looks_like_test_file-file :
    (t : Text) → looks_like_test_file t ≡ true → (not (is_empty t) && not (is_dev_null t)) ≡ true
unfolding looks_like_test_file
looks_like_test_file-file [] h = cc
looks_like_test_file-file (c ∷ t) h = elim (Bool-cases (is_dev_null (c ∷ t))) [
  | inl e ↦
      let q : c ∷ t ≡ codes "/dev/null" = (text_eq_iff (c ∷ t) (codes "/dev/null")).0 e in
      let k : false ≡ true = rw q at h in cc
  | inr e ↦ rw e refl
]

is_none-nil : (ts : List Text) → is_none ts ≡ true → ts ≡ []
is_none-nil [] h = refl
is_none-nil (t ∷ ts) h = cc

among-here : (t : Text) (ts : List Text) → among t (t ∷ ts) ≡ true
among-here t ts = rw ((text_eq_iff t t).1 refl) refl

or_these-IsBlocked :
    (test_patch diff t : Text) (tests : List Text)
    → tests ≡ keep_if looks_like_test_file (diff_touched_files test_patch)
    → (among t (or_these tests (keep_if looks_like_test_file (diff_touched_files diff))) ≡ true)
      ↔ IsBlocked test_patch diff t
or_these-IsBlocked test_patch diff t [] e =
    let none_named : (u : Text) → NamesTest test_patch u → ⊥ = λ u n.
      let k : false ≡ true =
        ap (among u) e ∙ among-keep_if looks_like_test_file u (diff_touched_files test_patch) ∙ n in
      cc in
    let q = among-keep_if looks_like_test_file t (diff_touched_files diff) in
    (
      λ h. inr (none_named, sym q ∙ h),
      λ b. elim b [ inl n ↦ absurd (none_named t n) | inr (_, n) ↦ q ∙ n ],
    )
or_these-IsBlocked test_patch diff t (u ∷ us) e =
    let q : (v : Text)
        → among v (u ∷ us) ≡ (among v (diff_touched_files test_patch) && looks_like_test_file v) =
      λ v. ap (among v) e ∙ among-keep_if looks_like_test_file v (diff_touched_files test_patch) in
    (
      λ h. inl (sym (q t) ∙ h),
      λ b. elim b [
        | inl n ↦ q t ∙ n
        | inr (none_named, _) ↦ absurd (none_named u (sym (q u) ∙ among-here u us))
      ],
    )

pub blocked_files-IsBlocked :
    (test_patch diff t : Text)
    → (among t (blocked_files test_patch diff) ≡ true) ↔ IsBlocked test_patch diff t
unfolding blocked_files
blocked_files-IsBlocked test_patch diff t = or_these-IsBlocked test_patch diff t _ refl

and-right : (a b : Bool) → (a && b) ≡ true → b ≡ true
and-right true b h = h
and-right false b h = cc

NamesTest-file :
    (diff t : Text) → NamesTest diff t → (not (is_empty t) && not (is_dev_null t)) ≡ true
NamesTest-file diff t n =
    looks_like_test_file-file t (and-right (among t (diff_touched_files diff)) _ n)

IsBlocked-file :
    (test_patch diff t : Text)
    → IsBlocked test_patch diff t
    → (not (is_empty t) && not (is_dev_null t)) ≡ true
IsBlocked-file test_patch diff t (inl n) = NamesTest-file test_patch t n
IsBlocked-file test_patch diff t (inr (_, n)) = NamesTest-file diff t n

pub is_none-touched :
    (test_patch diff a b : Text)
    → let blocked = blocked_files test_patch diff in
      is_none (sorted_two (keep_if (λ t. among t blocked) (touched (some (a, b)))))
      ≡ not (among (strip a) blocked || among (strip b) blocked)
is_none-touched test_patch diff a b =
    let blocked = blocked_files test_patch diff in
    let p : Text → Bool = λ t. among t blocked in
    is_none-sorted_two (keep_if p (touched (some (a, b))))
    ∙ ap is_none (
        keep_if-twice p (λ t. not (is_empty t) && not (is_dev_null t)) (strip a ∷ strip b ∷ [])
          (λ t h.
            IsBlocked-file test_patch diff t ((blocked_files-IsBlocked test_patch diff t).0 h)))
    ∙ is_none-keep_two p (strip a) (strip b)

starts_with-first_line : (c t : Text) → starts_with (first_line c) t ≡ true → starts_with c t ≡ true
starts_with-first_line c [] h = refl
starts_with-first_line [] (_ ∷ _) h = h
starts_with-first_line (x ∷ c) (y ∷ t) h = ground (arith, starts_with-first_line c t)

starts_with-part : (c t u : Text) → starts_with c (t ++ u) ≡ true → starts_with c t ≡ true
starts_with-part c [] u h = refl
starts_with-part [] (y ∷ t) u h = h
starts_with-part (x ∷ c) (y ∷ t) u h = ground (arith, starts_with-part c t u)

pub header-starts_with :
    (c : Text) (ab : Text × Text)
    → header_files (first_line c) ≡ some ab
    → starts_with c git_header ≡ true
header-starts_with c ab h = elim (Bool-cases (starts_with (first_line c) (codes "diff --git a/"))) [
  | inl e ↦
      starts_with-part c git_header (codes "a/")
        (starts_with-first_line c (codes "diff --git a/") e)
  | inr e ↦ let k : ◌≡◌ {A = Option (Text × Text)} none (some ab) = rw e at h in cc
]

other_one : (a b : Bool) → not (a || b) ≡ false → a ≡ false → b ≡ true
other_one true b h k = cc
other_one false true h k = refl
other_one false false h k = cc

-- What `blocked_in` finds.
pub blocked_in-Touches :
    (test_patch diff chunk : Text)
    → is_none (blocked_in (blocked_files test_patch diff) chunk) ≡ false
    → Touches test_patch diff chunk
unfolding blocked_in
blocked_in-Touches test_patch diff chunk h =
    let blocked = blocked_files test_patch diff in
    elim (Bool-cases (starts_with chunk git_header)) [
      | inr e ↦ let k : true ≡ false = rw e at h in cc
      | inl e ↦ elim (Option-cases (header_files (first_line chunk))) [
        | inl n ↦ let k : true ≡ false = rw (e, n) at h in cc
        | inr ((a, b), n) ↦
            let k : not (among (strip a) blocked || among (strip b) blocked) ≡ false =
              sym (is_none-touched test_patch diff a b) ∙ rw (e, n) at h in
            let iff = blocked_files-IsBlocked test_patch diff in
            (
              a,
              b,
              n,
              elim (Bool-cases (among (strip a) blocked)) [
                | inl x ↦ inl ((iff (strip a)).0 x)
                | inr x ↦ inr (
                    (iff (strip b)).0
                      (other_one (among (strip a) blocked) (among (strip b) blocked) k x))
              ],
            )
      ]
    ]

or-one : (a b : Bool) → (a ≡ true) ⊎ (b ≡ true) → not (a || b) ≡ false
or-one true b h = refl
or-one false true h = refl
or-one false false (inl h) = cc
or-one false false (inr h) = cc

pub Touches-blocked_in :
    (test_patch diff chunk : Text)
    → Touches test_patch diff chunk
    → is_none (blocked_in (blocked_files test_patch diff) chunk) ≡ false
unfolding blocked_in
Touches-blocked_in test_patch diff chunk (a, b, n, t) =
    let blocked = blocked_files test_patch diff in
    let iff = blocked_files-IsBlocked test_patch diff in
    let e = header-starts_with chunk (a, b) n in
    rw (e, n)
      (is_none-touched test_patch diff a b
        ∙ or-one (among (strip a) blocked) (among (strip b) blocked)
            (elim t [ inl x ↦ inl ((iff (strip a)).1 x) | inr x ↦ inr ((iff (strip b)).1 x) ]))
