-- ===== src/Classifier/Accuracy/Overall.antt =====
-- analyzer/evaluate.py: the accuracy of the classifier on any generated dataset.
use honeypot_m1spro.Base.{suc, ◌≡◌, refl, ap, ◌∙◌, some, List, [], ◌∷◌, arith, length}
use honeypot_m1spro.Classifier.{
  classify_session, SessionEvent, Label, scanner_legitime, bruteforcer, bot, humain,
}
use honeypot_m1spro.Classifier.Evaluation.{
  Matrix, empty_matrix, count_one, confusion_matrix, ratio, correct, accuracy,
  confusion_matrix-counts,
}
use honeypot_m1spro.Classifier.Accuracy.{
  IsDataset, IsGenerated, bruteforcer_drawn, bot_drawn, scanner_drawn, humain_drawn,
}
use honeypot_m1spro.Classifier.Accuracy.Bruteforcer.{gen_bruteforcer-label, gen_scanner-label}
use honeypot_m1spro.Classifier.Accuracy.Bot.{gen_bot-label}
use honeypot_m1spro.Classifier.Accuracy.Humain.{gen_humain-label}

IsGenerated-label :
    (l : Label) (events : List SessionEvent)
    → IsGenerated l events
    → classify_session events ≡ some l
IsGenerated-label bruteforcer _ (bruteforcer_drawn n number gap h k) =
    gen_bruteforcer-label number gap n h
IsGenerated-label bot _ (bot_drawn gap tries h k n) = gen_bot-label gap tries h k n
IsGenerated-label scanner_legitime _ (scanner_drawn tries gap gap') =
    gen_scanner-label tries gap gap'
IsGenerated-label humain _ (humain_drawn gap typed sample h n k) =
    gen_humain-label gap typed sample h n

correct-count_one : (t : Label) (m : Matrix) → correct (count_one t (some t) m) ≡ suc (correct m)
unfolding correct count_one
correct-count_one scanner_legitime m = omega arith
correct-count_one bruteforcer m = omega arith
correct-count_one bot m = omega arith
correct-count_one humain m = omega arith

all_correct :
    (dataset : List (Label × List SessionEvent))
    → IsDataset dataset
    → correct (confusion_matrix classify_session dataset) ≡ length dataset
unfolding confusion_matrix
all_correct [] h = unfold correct empty_matrix in refl
all_correct ((l, events) ∷ dataset) (here, more) = rw (IsGenerated-label l events here) (
    correct-count_one l (confusion_matrix classify_session dataset)
    ∙ ap suc (all_correct dataset more))

-- Whatever the generators draw in their ranges and in whatever order, every generated session is on the
-- diagonal of the confusion matrix, and the accuracy is the whole dataset out of the whole dataset, or 0
-- for an empty one.
pub accuracy_generated :
    (dataset : List (Label × List SessionEvent))
    → IsDataset dataset
    → (correct (confusion_matrix classify_session dataset) ≡ length dataset)
      × (accuracy (confusion_matrix classify_session dataset)
          ≡ ratio (length dataset) (length dataset))
unfolding accuracy
accuracy_generated dataset h =
    let right = all_correct dataset h in
    let (_, whole) = confusion_matrix-counts classify_session dataset bot in
    (right, rw (right, whole) refl)
