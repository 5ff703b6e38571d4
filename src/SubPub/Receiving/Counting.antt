-- ===== src/SubPub/Receiving/Counting.antt =====
-- Which calls of onClientMessage of src/examples/subpub.cc return, and what they count.
use serverlite.Base.{
  ℕ, zero, suc, ◌+◌, ◌≤◌, ◌≡◌, refl, ap, ◌∙◌, arith, Bool, true, false, not, ◌&&◌, ◌||◌,
  if◌then◌else◌, bytes_eq, bytes_eq_iff, codes, Bool-cases, inl, inr, some, none, List, [], ◌∷◌,
  ◌++◌, Bytes, length, ==_ne, append_assoc, length-append, take-append_exact, drop-append_past,
}
use serverlite.Base.Text.{Lacks, split_crlf, split_crlf-line}
use serverlite.SubPub.{bad_length, line_to}
use serverlite.SubPub.Text.{
  IsPlain, IsPlain-IsLine, IsLine, IsLine-append, IsLine-Lacks, get_message_first, get_message_line,
  strip_plain,
}
use serverlite.SubPub.Receiving.{
  Client, has_line, find_colon, turn, ends, goes_on, assert_fails, Turn, Outcome, aborted,
  is_expected, returned, loop, on_client_message,
}

find_colon-found : (t rest : Bytes) → Lacks 58 t → find_colon (t ++ 58 ∷ rest) ≡ some (length t)
unfolding find_colon
find_colon-found [] rest p = refl
find_colon-found (b ∷ t) rest p =
    rw (==_ne b 58 p.0, find_colon-found t rest p.1) (ap some (omega arith))

find_colon-missing : (s : Bytes) → Lacks 58 s → find_colon s ≡ none
unfolding find_colon
find_colon-missing [] p = refl
find_colon-missing (b ∷ s) p = rw (==_ne b 58 p.0, find_colon-missing s p.1) refl

has_line-line : (s rest : Bytes) → IsLine s → has_line (s ++ 13 ∷ 10 ∷ rest) ≡ true
has_line-line s rest p = rw (split_crlf-line s rest (IsLine-Lacks s p)) refl

turn_stuck :
    (buffer : Bytes) (n : ℕ)
    → has_line buffer ≡ true
    → let c : Client = record { buffer = buffer; errcode = 2; receive_count = n } in
      turn c ≡ goes_on c
unfolding turn
turn_stuck buffer n some_line = rw some_line refl

loop_stuck :
    (fuel : ℕ) (buffer : Bytes) (n : ℕ)
    → has_line buffer ≡ true
    → loop fuel (record { buffer = buffer; errcode = 2; receive_count = n }) ≡ none
unfolding loop
loop_stuck zero buffer n some_line = refl
loop_stuck (suc fuel) buffer n some_line =
    rw (turn_stuck buffer n some_line) (loop_stuck fuel buffer n some_line)

turn_bad :
    (s rest : Bytes) (n : ℕ)
    → IsLine s
    → Lacks 58 s
    → bad_length s ≡ true
    → turn (record { buffer = s ++ 13 ∷ 10 ∷ rest; errcode = 0; receive_count = n })
      ≡ goes_on (record { buffer = rest; errcode = 2; receive_count = n })
unfolding turn
turn_bad s rest n line plain bad =
    rw (has_line-line s rest line, get_message_first s rest line, bad, find_colon-missing s plain)
      refl

-- Where a line with no colon, shorter than five bytes or longer than a hundred, comes with another
-- line behind it, onClientMessage does not return, whatever the number of turns: errcode stays at
-- 2, and the loop goes on without taking anything from the buffer.
pub on_client_message_hangs :
    (fuel : ℕ) (s t rest : Bytes) (n : ℕ)
    → IsLine s
    → Lacks 58 s
    → bad_length s ≡ true
    → IsLine t
    → on_client_message fuel (s ++ 13 ∷ 10 ∷ (t ++ 13 ∷ 10 ∷ rest)) n ≡ none
unfolding on_client_message loop
on_client_message_hangs zero s t rest n line plain bad next = refl
on_client_message_hangs (suc fuel) s t rest n line plain bad next =
    rw (turn_bad s (t ++ 13 ∷ 10 ∷ rest) n line plain bad)
      (loop_stuck fuel (t ++ 13 ∷ 10 ∷ rest) n (has_line-line t rest next))

-- A topic and a content that reach the subscriber whole: plain, of a length that is taken, and no
-- colon in the topic.
pub record IsPublication (t content : Bytes) : Type 0 where
  pub plain_topic : IsPlain t
  pub plain_content : IsPlain content
  pub no_colon : Lacks 58 t
  pub lower : 4 ≤ length t + length content
  pub upper : length t + length content ≤ 99

-- What fails an assert: anything but hello for foo, and anything but world for bar.
abbrev pub is_wrong : Bytes → Bytes → Bool
is_wrong t content =
    (bytes_eq t (codes "foo") && not (bytes_eq content (codes "hello")))
    || (bytes_eq t (codes "bar") && not (bytes_eq content (codes "world")))

foo_bar : bytes_eq (codes "foo") (codes "bar") ≡ false
unfolding bytes_eq
foo_bar = refl

is_wrong_lem : (t content : Bytes) → is_expected t content ≡ not (is_wrong t content)
unfolding is_expected
is_wrong_lem t content = elim (Bool-cases (bytes_eq t (codes "foo"))) [
  | inr other ↦ ground arith
  | inl foo ↦
      let no_bar : bytes_eq t (codes "bar") ≡ false =
        rw ((bytes_eq_iff t (codes "foo")).0 foo) foo_bar in
      ground arith
]

-- The count at the end, or the abort at the first that is wrong.
abbrev pub outcome_of : List (Bytes × Bytes) → ℕ → Outcome
outcome_of [] n = returned (record { buffer = []; errcode = 0; receive_count = n })
outcome_of ((t, content) ∷ ps) n =
    let rest = outcome_of ps (n + 1) in if is_wrong t content then aborted else rest

abbrev pub AllPublications : List (Bytes × Bytes) → Type 0
AllPublications [] = Unit
AllPublications ((t, content) ∷ ps) = IsPublication t content × AllPublications ps

abbrev pub lines_of : List (Bytes × Bytes) → Bytes
lines_of [] = []
lines_of ((t, content) ∷ ps) = line_to t content ++ lines_of ps

turn_publication :
    (t content rest : Bytes) (n : ℕ)
    → IsPublication t content
    → turn (record { buffer = line_to t content ++ rest; errcode = 0; receive_count = n }) ≡ (
        if is_wrong t content
        then assert_fails
        else goes_on (record { buffer = rest; errcode = 0; receive_count = n + 1 }))
unfolding turn
turn_publication t content rest n p =
    let s = t ++ 58 ∷ content in
    let line : IsLine s =
      IsLine-append t (58 ∷ content) (IsPlain-IsLine t p.plain_topic)
        (((λ e. cc), (λ e. cc)), IsPlain-IsLine content p.plain_content) in
    let size = length-append t (58 ∷ content) in
    let whole : line_to t content ++ rest ≡ s ++ 13 ∷ 10 ∷ rest = simp append_assoc in
    rw
      (
        whole,
        has_line-line s rest line,
        get_message_line s rest line (omega (arith, size, p.lower)) (omega (arith, size, p.upper)),
        find_colon-found t content p.no_colon,
        take-append_exact (length t) t (58 ∷ content) refl,
        drop-append_past (length t + 1) 1 t (58 ∷ content) refl,
        strip_plain t p.plain_topic,
        strip_plain content p.plain_content,
        is_wrong_lem t content,
      )
      (swapped (is_wrong t content) _ _)
  where
    swapped : (b : Bool) (x y : Turn) → (if not b then x else y) ≡ (if b then y else x)
    swapped true x y = refl
    swapped false x y = refl

turn_empty : (n : ℕ) → turn (record { buffer = []; errcode = 0; receive_count = n }) ≡ ends
unfolding turn split_crlf
turn_empty n = refl

-- A subscriber that is handed publications of plain topics and contents, with no colon in the topic
-- and four to 99 bytes in each together, none of them waiting for its end: with a turn for each and
-- one more, onClientMessage ends. It aborts if a publication of foo is not hello, or one of bar not
-- world; otherwise it returns, has counted each of them once, and left nothing in the buffer.
pub on_client_message_counts :
    (ps : List (Bytes × Bytes)) (n : ℕ)
    → AllPublications ps
    → on_client_message (suc (length ps)) (lines_of ps) n ≡ some (outcome_of ps n)
unfolding on_client_message loop
on_client_message_counts [] n all = rw (turn_empty n) refl
on_client_message_counts ((t, content) ∷ ps) n all = elim (Bool-cases (is_wrong t content)) [
  | inl wrong ↦ rw (turn_publication t content (lines_of ps) n all.0, wrong) refl
  | inr right ↦
      rw (turn_publication t content (lines_of ps) n all.0, right)
        (on_client_message_counts ps (n + 1) all.1)
]

-- Where none is wrong, the count is that of the publications.
abbrev pub NoneWrong : List (Bytes × Bytes) → Type 0
NoneWrong [] = Unit
NoneWrong ((t, content) ∷ ps) = (is_wrong t content ≡ false) × NoneWrong ps

outcome_counts :
    (ps : List (Bytes × Bytes)) (n : ℕ)
    → NoneWrong ps
    → outcome_of ps n
      ≡ returned (record { buffer = []; errcode = 0; receive_count = n + length ps })
outcome_counts [] n right =
    ap (λ k. returned (record { buffer = []; errcode = 0; receive_count = k })) {x = n} {y = n + 0}
      (omega arith)
outcome_counts ((t, content) ∷ ps) n (right, more) = rw (right) (
    outcome_counts ps (n + 1) more
    ∙ ap (λ k. returned (record { buffer = []; errcode = 0; receive_count = k }))
        {x = n + 1 + length ps} {y = n + suc (length ps)} (omega arith))
