-- ===== src/Sarif/Position.antt =====
-- Lines and columns of src/output/sarif.rs.
use weggli_enhance.Common.{
  ℕ, zero, suc, ◌+◌, ◌-◌, ◌≤◌, ◌<◌, ◌≡◌, refl, ◌∙◌, ap, true, [], ◌∷◌, ◌++◌, Option, none, some,
  arith, min, nat_beq, if◌then◌else◌, length, take, drop, done, lift, Option-cases, Bool-cases, inl,
  inr,
}
use weggli_enhance.Text.{Bytes, range, slice, is_sliceable}
use weggli_enhance.Result.{QueryResult, start_offset}
use weggli_enhance.Sarif.{count_newlines, last_newline, byte_to_line, byte_to_column, terminal_line}

-- The line starts at this offset: behind the given number of newlines.
unfoldable pub line_start : Bytes → ℕ → ℕ
line_start s zero = 0
line_start [] (suc n) = 0
line_start (c ∷ s) (suc n) =
    if nat_beq c b'\n' then suc (line_start s n) else suc (line_start s (suc n))

-- The start of the last line of a prefix, from its last newline.
last_start : Option ℕ → ℕ
last_start none = 0
last_start (some i) = suc i

last_newline-none : (s : Bytes) → last_newline s ≡ none → count_newlines s ≡ 0
unfolding last_newline count_newlines
last_newline-none [] h = refl
last_newline-none (c ∷ s) h = ground (arith, last_newline-none s)

last_newline-some : (s : Bytes) {i : ℕ} → last_newline s ≡ some i → 0 < count_newlines s
unfolding last_newline count_newlines
last_newline-some [] h = cc
last_newline-some (c ∷ s) {i} h = elim (Option-cases (last_newline s)) [
  | inl absent ↦ ground (arith, absent, h)
  | inr (j, found) ↦ ground (arith, last_newline-some s found)
]

-- The last newline of a prefix stands right before the start of its last line.
line_start-last :
    (s rest : Bytes) → line_start (s ++ rest) (count_newlines s) ≡ last_start (last_newline s)
unfolding line_start count_newlines last_newline last_start
line_start-last [] rest = refl
line_start-last (c ∷ s) rest = elim (Option-cases (last_newline s)) [
  | inl absent ↦ ground (arith, line_start-last s rest, last_newline-none s absent)
  | inr (i, found) ↦
      let ih = line_start-last s rest in
      let pos = last_newline-some s found in
      let e : count_newlines s ≡ suc (count_newlines s - 1) = omega arith in
      elim (Bool-cases (nat_beq c b'\n')) [
        | inl newline ↦ rw (newline, found) (ground (arith, ih, found, newline))
        | inr other ↦ ground (arith, ih, found, other, e)
      ]
]

-- A newline lies inside its text.
last_newline-lt : (s : Bytes) {i : ℕ} → last_newline s ≡ some i → i < length s
unfolding last_newline
last_newline-lt [] h = cc
last_newline-lt (c ∷ s) {i} h = elim (Option-cases (last_newline s)) [
  | inl absent ↦ ground (arith, absent, h)
  | inr (j, found) ↦ ground (arith, last_newline-lt s found)
]

-- The prefix that both functions read.
pub prefix-done :
    (source : Bytes) (offset : ℕ)
    → is_sliceable source (range 0 (min offset (length source))) ≡ true
    → slice source (range 0 (min offset (length source)))
      ≡ done (take (min offset (length source)) source)
unfolding slice
prefix-done source offset h =
    let e : min offset (length source) - 0 ≡ min offset (length source) = omega arith in
    rw (h, slice) (ap (λ n. done (take n source)) e)

take-drop : (n : ℕ) (s : Bytes) → take n s ++ drop n s ≡ s
take-drop zero s = refl
take-drop (suc n) [] = refl
take-drop (suc n) (c ∷ s) = ap (◌∷◌ c) (take-drop n s)

length-take : (n : ℕ) (s : Bytes) → n ≤ length s → length (take n s) ≡ n
length-take zero s h = refl
length-take (suc n) [] h = absurd (omega arith)
length-take (suc n) (c ∷ s) h = ap suc (length-take n s (omega arith))

-- The line and the column that SARIF gets stand for the offset: for every offset whose prefix is a
-- slice of the source, neither function panics, and the column's distance behind the start of the
-- line is the offset, cut off at the end of the source.
pub byte_to_column-line_start :
    (source : Bytes) (offset : ℕ)
    → is_sliceable source (range 0 (min offset (length source))) ≡ true
    → (line : ℕ) × (column : ℕ) × (byte_to_line source offset ≡ done line)
      × (byte_to_column source offset ≡ done column)
      × (1 ≤ column)
      × (line_start source line + column ≡ min offset (length source) + 1)
unfolding byte_to_line byte_to_column last_start
byte_to_column-line_start source offset h =
    let n = min offset (length source) in
    let before = take n source in
    let e = prefix-done source offset h in
    let whole = take-drop n source in
    let start : line_start source (count_newlines before) ≡ last_start (last_newline before) =
      rw (take-drop n source) at (line_start-last before (drop n source)) in
    elim (Option-cases (last_newline before)) [
      | inl absent ↦ (
        count_newlines before,
        n + 1,
        rw e,
        rw e (rw absent),
        omega arith,
        ground (arith, start, absent),
      )
      | inr (i, found) ↦
          let lt : i < n =
            omega (arith, last_newline-lt before found, length-take n source (omega arith)) in
          let behind : line_start source (count_newlines before) ≡ suc i =
            start ∙ ap last_start found in
          (count_newlines before, n - i, rw e, rw e (rw found), omega arith, omega (arith, behind))
    ]

-- For a result inside its source the terminal's line number is the one that SARIF gets, plus one:
-- the terminal counts from 1 and SARIF is given lines that count from 0.
pub terminal_line-byte_to_line :
    (source : Bytes) (r : QueryResult)
    → start_offset r ≤ length source
    → terminal_line r source ≡ lift (λ l. l + 1) (byte_to_line source (start_offset r))
unfolding terminal_line byte_to_line
terminal_line-byte_to_line source r h =
    let e : min (start_offset r) (length source) ≡ start_offset r = omega arith in
    rw e (ground arith)
