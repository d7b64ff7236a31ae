-- ===== src/Classifier/Evaluation.antt =====
-- analyzer/evaluate.py: the confusion matrix of the classifier and its metrics. The labelled sessions,
-- which Python's random generator makes, are an argument; a quotient is kept as a fraction.
use honeypot_m1spro.Base.{
  ℕ, suc, ◌+◌, ◌*◌, ◌≤◌, ◌≡◌, refl, ap, ◌∙◌, ◌&&◌, Option, none, some, List, [], ◌∷◌, arith, eqb,
  if◌then◌else◌, length,
}
use honeypot_m1spro.Classifier.{SessionEvent, Label, scanner_legitime, bruteforcer, bot, humain}

abbrev pub labels : List Label
labels = scanner_legitime ∷ bruteforcer ∷ bot ∷ humain ∷ []

abbrev index_of : Label → ℕ
index_of scanner_legitime = 0
index_of bruteforcer = 1
index_of bot = 2
index_of humain = 3

-- The columns: the labels, then no label.
abbrev column_of : Option Label → ℕ
column_of none = 4
column_of (some l) = index_of l

-- `matrix[true][pred]`.
abbrev pub Matrix : Type 0
Matrix = Label → Option Label → ℕ

unfoldable pub empty_matrix : Matrix
empty_matrix true_label pred = 0

-- `matrix[true_label][pred] += 1`.
unfoldable pub count_one : Label → Option Label → Matrix → Matrix
count_one t p m true_label pred =
    if eqb (index_of t) (index_of true_label) && eqb (column_of p) (column_of pred)
    then suc (m true_label pred)
    else m true_label pred

-- `confusion_matrix`, for a classifier.
unfoldable pub confusion_matrix :
    (List SessionEvent → Option Label) → List (Label × List SessionEvent) → Matrix
unfolding empty_matrix count_one
confusion_matrix clf [] = empty_matrix
confusion_matrix clf ((true_label, events) ∷ dataset) =
    count_one true_label (clf events) (confusion_matrix clf dataset)

-- `sum(matrix[label].values())` and `sum(matrix[t][label] for t in LABELS)`.
unfoldable pub true_total : Matrix → Label → ℕ
true_total m l =
    m l (some scanner_legitime)
    + m l (some bruteforcer)
    + m l (some bot)
    + m l (some humain)
    + m l none

pred_total : Matrix → Label → ℕ
pred_total m l =
    m scanner_legitime (some l) + m bruteforcer (some l) + m bot (some l) + m humain (some l)

-- A quotient, the numerator first, and `a / b if b else 0.0`.
abbrev pub ratio : ℕ → ℕ → ℕ × ℕ
ratio a b = if eqb b 0 then (0, 1) else (a, b)

pub record Metrics : Type 0 where
  pub precision : ℕ × ℕ
  pub recall : ℕ × ℕ
  pub f1 : ℕ × ℕ
  pub support : ℕ

-- `2 * p * r / (p + r) if (p + r) else 0.0`, where the common denominator cancels.
abbrev harmonic : ℕ × ℕ → ℕ × ℕ → ℕ × ℕ
harmonic (a, b) (c, d) = ratio (2 * a * c) (a * d + c * b)

unfoldable pub metrics : Matrix → Label → Metrics
unfolding true_total pred_total
metrics m l =
    let tp = m l (some l) in
    let precision = ratio tp (pred_total m l) in
    let recall = ratio tp (true_total m l) in
    record {
      precision = precision;
      recall = recall;
      f1 = harmonic precision recall;
      support = true_total m l;
    }

-- `sum(sum(row.values()) for row in matrix.values())`, and the cells of the diagonal.
unfoldable pub total : Matrix → ℕ
unfolding true_total
total m =
    true_total m scanner_legitime
    + true_total m bruteforcer
    + true_total m bot
    + true_total m humain

unfoldable pub correct : Matrix → ℕ
correct m =
    m scanner_legitime (some scanner_legitime)
    + m bruteforcer (some bruteforcer)
    + m bot (some bot)
    + m humain (some humain)

unfoldable pub accuracy : Matrix → ℕ × ℕ
unfolding total correct
accuracy m = ratio (correct m) (total m)

true_total-count_one :
    (t : Label) (p : Option Label) (m : Matrix) (l : Label)
    → true_total (count_one t p m) l
      ≡ (if eqb (index_of t) (index_of l) then suc (true_total m l) else true_total m l)
unfolding true_total count_one
true_total-count_one t none m l = ground arith
true_total-count_one t (some scanner_legitime) m l = ground arith
true_total-count_one t (some bruteforcer) m l = ground arith
true_total-count_one t (some bot) m l = ground arith
true_total-count_one t (some humain) m l = ground arith

total-count_one :
    (t : Label) (p : Option Label) (m : Matrix) → total (count_one t p m) ≡ suc (total m)
unfolding total true_total
total-count_one scanner_legitime p m = omega (
  arith,
  true_total-count_one scanner_legitime p m scanner_legitime,
  true_total-count_one scanner_legitime p m bruteforcer,
  true_total-count_one scanner_legitime p m bot,
  true_total-count_one scanner_legitime p m humain,
)
total-count_one bruteforcer p m = omega (
  arith,
  true_total-count_one bruteforcer p m scanner_legitime,
  true_total-count_one bruteforcer p m bruteforcer,
  true_total-count_one bruteforcer p m bot,
  true_total-count_one bruteforcer p m humain,
)
total-count_one bot p m = omega (
  arith,
  true_total-count_one bot p m scanner_legitime,
  true_total-count_one bot p m bruteforcer,
  true_total-count_one bot p m bot,
  true_total-count_one bot p m humain,
)
total-count_one humain p m = omega (
  arith,
  true_total-count_one humain p m scanner_legitime,
  true_total-count_one humain p m bruteforcer,
  true_total-count_one humain p m bot,
  true_total-count_one humain p m humain,
)

-- How many sessions carry a label.
abbrev support_of : Label → List (Label × List SessionEvent) → ℕ
support_of l [] = 0
support_of l ((t, _) ∷ dataset) =
    if eqb (index_of t) (index_of l) then suc (support_of l dataset) else support_of l dataset

-- The confusion matrix counts every session once: each row adds up to the sessions of its label, and
-- all cells to the size of the dataset.
pub confusion_matrix-counts :
    (clf : List SessionEvent → Option Label) (dataset : List (Label × List SessionEvent))
    (l : Label)
    → (true_total (confusion_matrix clf dataset) l ≡ support_of l dataset)
      × (total (confusion_matrix clf dataset) ≡ length dataset)
unfolding confusion_matrix
confusion_matrix-counts clf [] l = unfold total true_total empty_matrix in (refl, refl)
confusion_matrix-counts clf ((t, events) ∷ dataset) l =
    let (row, all_cells) = confusion_matrix-counts clf dataset l in
    (
      true_total-count_one t (clf events) (confusion_matrix clf dataset) l ∙ ground (arith, row),
      total-count_one t (clf events) (confusion_matrix clf dataset) ∙ ap suc all_cells,
    )

-- A fraction between 0 and 1, with a denominator.
abbrev pub IsShare : ℕ × ℕ → Type 0
IsShare (a, b) = (1 ≤ b) × (a ≤ b)

ratio-IsShare : (a b : ℕ) → a ≤ b → IsShare (ratio a b)
ratio-IsShare a b h = ground arith

-- The precision, the recall and the accuracy of any matrix are fractions between 0 and 1: no
-- division by zero is left.
pub metrics-IsShare :
    (m : Matrix) (l : Label)
    → IsShare (metrics m l).precision × IsShare (metrics m l).recall × IsShare (accuracy m)
unfolding metrics accuracy
metrics-IsShare m l =
    unfold total correct true_total pred_total in
    (
      ratio-IsShare (m l (some l)) (pred_total m l) (in_column l),
      ratio-IsShare (m l (some l)) (true_total m l) (in_row l),
      ratio-IsShare (correct m) (total m) (omega arith),
    )
  where
    in_column : (k : Label) → m k (some k) ≤ pred_total m k
    in_column scanner_legitime = omega arith
    in_column bruteforcer = omega arith
    in_column bot = omega arith
    in_column humain = omega arith

    in_row : (k : Label) → m k (some k) ≤ true_total m k
    in_row scanner_legitime = omega arith
    in_row bruteforcer = omega arith
    in_row bot = omega arith
    in_row humain = omega arith
