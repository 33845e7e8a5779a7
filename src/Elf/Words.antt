-- ===== src/Elf/Words.antt =====
-- Reading the fields of a record of the file at its place.
use ivan_cc.Prelude.{ℕ, ◌+◌, ◌%◌, ◌^◌, List, ◌++◌, ◌≡◌, sym, ap, ◌∙◌, length, take, drop, arith}
use ivan_cc.Elf.Object.{little}
use ivan_cc.Elf.Loads.{LiesAt}
use ivan_cc.Elf.Laid.{LiesAt-within}
use ivan_cc.Elf.Reader.{from_little, field}
use ivan_cc.Elf.Fields.{drop-LiesAt, take-front}

pub from_little8 : (v : ℕ) → from_little (little 8 v) ≡ v % 2 ^ 64
unfolding from_little
from_little8 v = omega arith

pub from_little4 : (v : ℕ) → from_little (little 4 v) ≡ v % 2 ^ 32
unfolding from_little
from_little4 v = omega arith

pub from_little2 : (v : ℕ) → from_little (little 2 v) ≡ v % 2 ^ 16
unfolding from_little
from_little2 v = omega arith

field-LiesAt :
    (file : List ℕ) (at : ℕ) (bs : List ℕ)
    → LiesAt file at bs
    → field file at (length bs) ≡ from_little bs
unfolding field
field-LiesAt file at bs lies =
    ap (λ z. from_little (take (length bs) z)) (drop-LiesAt file at bs lies)
    ∙ ap from_little (take-front bs lies.1)

-- The `n` bytes at `k` of a record that lies at `at`.
pub field-within :
    (file : List ℕ) (at : ℕ) (bs : List ℕ) (k n : ℕ)
    → LiesAt file at bs
    → bs ≡ take k bs ++ (take n (drop k bs) ++ drop n (drop k bs))
    → length (take k bs) ≡ k
    → length (take n (drop k bs)) ≡ n
    → field file (at + k) n ≡ field bs k n
unfolding field
field-within file at bs k n lies e l m =
    let inner =
      LiesAt-within file at bs k (take n (drop k bs)) lies (take k bs, drop n (drop k bs), e, l) in
    ap (field file (at + k)) (sym m) ∙ field-LiesAt file (at + k) (take n (drop k bs)) inner
