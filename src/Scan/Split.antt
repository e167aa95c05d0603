-- ===== src/Scan/Split.antt =====
-- The split function on a part of the input, against the lines of the whole input.
use nixcached.Prelude.{
  ℕ, suc, ◌+◌, ◌≤◌, ◌≡◌, ◌≢◌, refl, sym, ap, ◌∙◌, Bool, true, false, ◌&&◌, ◌⊎◌, [], ◌∷◌, ◌++◌, none,
  some, append-nil, append_assoc, arith, ◌==◌, if◌then◌else◌, length, take, drop, Bytes, has_prefix,
  is_positive, is_negative, Bool-cases, Option-cases, inl, inr, some_inj, and-eq_true, ltb, ltb→lt,
}
use nixcached.Scan.{
  match_inline_eof, index_newline, drop_cr, SplitResult, wait_for_more, scan_lines,
  scan_lines_with_eof,
}
use nixcached.Scan.Lines.{is_end, lines_in, lines_of, fits, max_line}

-- A complete mark is one whatever follows.
pub positive-is_end :
    (buf more : Bytes) → is_positive (match_inline_eof buf) ≡ true → is_end (buf ++ more) ≡ true
unfolding match_inline_eof has_prefix
positive-is_end [] more h = cc
positive-is_end (a ∷ []) more h = ground arith
positive-is_end (a ∷ b ∷ []) more h = ground arith
positive-is_end (a ∷ b ∷ c ∷ buf) more h = ground arith

-- What is no mark, and no beginning of one, does not become one.
pub neither-is_end :
    (buf more : Bytes)
    → buf ≢ []
    → is_positive (match_inline_eof buf) ≡ false
    → is_negative (match_inline_eof buf) ≡ false
    → is_end (buf ++ more) ≡ false
unfolding match_inline_eof has_prefix
neither-is_end [] more n p q = absurd (n refl)
neither-is_end (a ∷ []) more n p q = ground arith
neither-is_end (a ∷ b ∷ []) more n p q = ground arith
neither-is_end (a ∷ b ∷ c ∷ buf) more n p q = ground arith

-- At the end of the input an incomplete mark is none.
pub not_positive-is_end :
    (buf : Bytes) → is_positive (match_inline_eof buf) ≡ false → is_end buf ≡ false
unfolding match_inline_eof has_prefix
not_positive-is_end [] p = refl
not_positive-is_end (a ∷ []) p = ground arith
not_positive-is_end (a ∷ b ∷ []) p = ground arith
not_positive-is_end (a ∷ b ∷ c ∷ buf) p = ground arith

pub negative-short : (buf : Bytes) → is_negative (match_inline_eof buf) ≡ true → length buf ≤ 2
unfolding match_inline_eof
negative-short [] p = omega arith
negative-short (a ∷ []) p = omega arith
negative-short (a ∷ b ∷ []) p = omega arith
negative-short (a ∷ b ∷ c ∷ buf) p = ground arith

pub lines_in-cons :
    (cur : Bytes) (c : ℕ) (s : Bytes)
    → lines_in cur (c ∷ s)
      ≡ (if c == 10 then drop_cr cur ∷ lines_of s else lines_in (cur ++ c ∷ []) s)
unfolding lines_of lines_in
lines_in-cons [] c s = refl
lines_in-cons (b ∷ cur) c s = refl

index_newline-eq_none :
    (c : ℕ) (s : Bytes)
    → index_newline (c ∷ s) ≡ none
    → (c == 10 ≡ false) × (index_newline s ≡ none)
unfolding index_newline
index_newline-eq_none c s h = ground arith

index_newline-eq_some :
    (c : ℕ) (s : Bytes) (i : ℕ)
    → index_newline (c ∷ s) ≡ some i
    → ((c == 10 ≡ true) × (i ≡ 0))
      ⊎ ((c == 10 ≡ false) × (j : ℕ) × (index_newline s ≡ some j) × (i ≡ suc j))
unfolding index_newline
index_newline-eq_some c s i h = elim (Bool-cases (c == 10)) [
  | inl y ↦ inl (y, sym (some_inj (rw y at h)))
  | inr n ↦ elim (Option-cases (index_newline s)) [
    | inl o ↦ absurd (ground arith)
    | inr (j, o) ↦ inr (n, j, o, ground arith)
  ]
]

pub lines_in-none :
    (buf cur more : Bytes)
    → index_newline buf ≡ none
    → lines_in cur (buf ++ more) ≡ lines_in (cur ++ buf) more
lines_in-none [] cur more h = rw append-nil
lines_in-none (c ∷ buf) cur more h =
    let (n, o) = index_newline-eq_none c buf h in
    lines_in-cons cur c (buf ++ more)
    ∙ rw n (
        lines_in-none buf (cur ++ c ∷ []) more o
        ∙ ap (λ l. lines_in l more) (append_assoc cur (c ∷ []) buf))

pub lines_in-some :
    (buf cur more : Bytes) (i : ℕ)
    → index_newline buf ≡ some i
    → lines_in cur (buf ++ more) ≡ drop_cr (cur ++ take i buf) ∷ lines_of (drop (suc i) buf ++ more)
lines_in-some [] cur more i h = unfold index_newline in cc h
lines_in-some (c ∷ buf) cur more i h = elim (index_newline-eq_some c buf i h) [
  | inl (y, e) ↦ rw (lines_in-cons, y, e, append-nil) refl
  | inr (n, j, o, e) ↦
      rw (lines_in-cons, n, e)
        (lines_in-some buf (cur ++ c ∷ []) more j o
          ∙ ap (λ l. drop_cr l ∷ lines_of (drop (suc j) buf ++ more))
              (append_assoc cur (c ∷ []) (take j buf)))
]

pub index_newline-length :
    (buf : Bytes) (i : ℕ)
    → index_newline buf ≡ some i
    → length buf ≡ suc i + length (drop (suc i) buf)
index_newline-length [] i h = unfold index_newline in cc h
index_newline-length (c ∷ buf) i h = elim (index_newline-eq_some c buf i h) [
  | inl (y, e) ↦ rw e (omega arith)
  | inr (t, j, o, e) ↦ rw e (omega (arith, index_newline-length buf j o))
]

pub fits-none :
    (buf more : Bytes) (n : ℕ)
    → index_newline buf ≡ none
    → fits n (buf ++ more) ≡ true
    → n ≤ max_line
    → n + length buf ≤ max_line
unfolding fits
fits-none [] more n h f b = omega arith
fits-none (c ∷ buf) more n h f b =
    let (t, o) = index_newline-eq_none c buf h in ground (arith, fits-none buf more (n + 1) o)

pub fits-some :
    (buf more : Bytes) (n i : ℕ)
    → index_newline buf ≡ some i
    → fits n (buf ++ more) ≡ true
    → n ≤ max_line
    → (n + i ≤ max_line) × (fits 0 (drop (suc i) buf ++ more) ≡ true)
unfolding fits
fits-some [] more n i h f b = unfold index_newline in cc h
fits-some (c ∷ buf) more n i h f b = elim (index_newline-eq_some c buf i h) [
  | inl (y, e) ↦ rw e (omega arith, rw y at f)
  | inr (t, j, o, e) ↦
      let (l, f') = and-eq_true (ltb n max_line) (fits (n + 1) (buf ++ more)) (rw t at f) in
      let (x, w) = fits-some buf more (n + 1) j o f' (omega (arith, ltb→lt n max_line l)) in
      rw e (omega arith, w)
]

-- What the split function may return while more input can come.
pub split_rule {κ} :
    (P : SplitResult → Type κ) (buf : Bytes)
    → (is_positive (match_inline_eof buf) ≡ true
        → P (record { advance = 0; token = none; final = true }))
    → (is_negative (match_inline_eof buf) ≡ true → P wait_for_more)
    → (index_newline buf ≡ none → P wait_for_more)
    → ((i : ℕ)
        → index_newline buf ≡ some i
        → is_negative (match_inline_eof (drop (suc i) buf)) ≡ true
        → P wait_for_more)
    → ((i : ℕ)
        → is_positive (match_inline_eof buf) ≡ false
        → is_negative (match_inline_eof buf) ≡ false
        → index_newline buf ≡ some i
        → P (record {
          advance = suc i;
          token = some (drop_cr (take i buf));
          final = is_positive (match_inline_eof (drop (suc i) buf));
        }))
    → P (scan_lines_with_eof buf false)
unfolding scan_lines_with_eof
split_rule P buf mark part line behind found =
    elim (Bool-cases (is_positive (match_inline_eof buf))) [
      | inl p ↦ rw p (mark p)
      | inr p ↦ elim (Bool-cases (is_negative (match_inline_eof buf))) [
        | inl n ↦ rw (p, n) (part n)
        | inr n ↦ elim (Option-cases (index_newline buf)) [
          | inl o ↦ rw (p, n, o, scan_lines) (rw (p, n) (line o))
          | inr (i, o) ↦ elim (Bool-cases (is_positive (match_inline_eof (drop (suc i) buf)))) [
            | inl q ↦ rw (p, n, o, scan_lines) (rw q (rw q at (found i p n o)))
            | inr q ↦ elim (Bool-cases (is_negative (match_inline_eof (drop (suc i) buf)))) [
              | inl w ↦ rw (p, n, o, scan_lines) (rw (q, w) (behind i o w))
              | inr w ↦ rw (p, n, o, scan_lines) (rw (q, w) (rw q at (found i p n o)))
            ]
          ]
        ]
      ]
    ]

pub drop-length : (buf : Bytes) → drop (length buf) buf ≡ []
drop-length [] = refl
drop-length (c ∷ buf) = drop-length buf

-- What it may return at the end of the input.
pub split_end_rule {κ} :
    (P : SplitResult → Type κ) (buf : Bytes)
    → (is_positive (match_inline_eof buf) ≡ true
        → P (record { advance = 0; token = none; final = true }))
    → (buf ≡ [] → P wait_for_more)
    → (buf ≢ []
        → is_positive (match_inline_eof buf) ≡ false
        → index_newline buf ≡ none
        → P (record { advance = length buf; token = some (drop_cr buf); final = false }))
    → ((i : ℕ)
        → is_positive (match_inline_eof buf) ≡ false
        → index_newline buf ≡ some i
        → P (record {
          advance = suc i;
          token = some (drop_cr (take i buf));
          final = is_positive (match_inline_eof (drop (suc i) buf));
        }))
    → P (scan_lines_with_eof buf true)
unfolding scan_lines_with_eof
split_end_rule P [] mark empty line found = empty refl
split_end_rule P (c ∷ s) mark empty line found =
    elim (Bool-cases (is_positive (match_inline_eof (c ∷ s)))) [
      | inl p ↦ rw p (mark p)
      | inr p ↦ elim (Bool-cases (is_negative (match_inline_eof (c ∷ s)) && false)) [
        | inl n ↦ absurd (and_false (is_negative (match_inline_eof (c ∷ s))) n)
        | inr n ↦ elim (Option-cases (index_newline (c ∷ s))) [
          | inl o ↦ rw (p, n, o) (rw drop-length (line (λ e. cc e) p o))
          | inr (i, o) ↦ elim (Bool-cases (is_positive (match_inline_eof (drop i s)))) [
            | inl q ↦ rw (p, n, o) (rw q (rw q at (found i p o)))
            | inr q ↦ elim (Bool-cases (is_negative (match_inline_eof (drop i s)) && false)) [
              | inl w ↦ absurd (and_false (is_negative (match_inline_eof (drop i s))) w)
              | inr w ↦ rw (p, n, o) (rw (q, w) (rw q at (found i p o)))
            ]
          ]
        ]
      ]
    ]
  where
    and_false : (b : Bool) → (b && false) ≡ true → ⊥
    and_false b h = ground arith
