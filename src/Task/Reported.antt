-- ===== src/Task/Reported.antt =====
-- When the counter reports nothing: no path is the other or lies below it.
use Prim.Native.String.{String}
use atc.Prelude.{
  ℕ, ◌≡◌, ◌≢◌, sym, ◌↔◌, Bool, true, false, List, [], ◌∷◌, ◌++◌, ltb, All, arith, if◌then◌else◌,
  iff_trans, iff_sym, All_iff, All-prod_iff, All_swap, Pairwise, Pairwise-iff, Pairwise-append_iff,
  append-nil_iff,
}
use atc.Task.Paths.{path_contains}
use atc.Task.Apart.{AreApart, AreApart-iff, path_contains_self}
use atc.Task.Counter.{
  Message, Counts, PathCounter, is_counted, found_in_both, nested_in, input_messages,
  output_messages, error_messages, duplicate_input, in_both, nested_inputs, input_in_output,
  duplicate_output, nested_outputs, output_in_input,
}
use atc.Task.Counted.{
  register_all, AllPaths, AllPaths-register_all, register_all-AllOnce, is_counted_iff,
  AllPaths-is_counted,
}

module _ {A : Type 0} where
  All_map : {P Q : A → Type 0} → ((x : A) → P x → Q x) → (xs : List A) → All P xs → All Q xs
  All_map f [] h = tt
  All_map f (x ∷ xs) h = (f x h.0, All_map f xs h.1)

  All_map2 :
      {C P Q : A → Type 0}
      → ((x : A) → C x → P x → Q x)
      → (xs : List A) → All C xs
      → All P xs
      → All Q xs
  All_map2 f [] c h = tt
  All_map2 f (x ∷ xs) c h = (f x c.0 h.0, All_map2 f xs c.1 h.1)

  All_zip3 :
      (P Q R : A → Type 0) (xs : List A)
      → All P xs
      → All Q xs
      → All R xs
      → All (λ x. (P x × Q x × R x)) xs
  All_zip3 P Q R [] p q r = tt
  All_zip3 P Q R (x ∷ xs) p q r = ((p.0, q.0, r.0), All_zip3 P Q R xs p.1 q.1 r.1)

pub report_iff : (b : Bool) (m : Message) → ((if b then m ∷ [] else []) ≡ []) ↔ (b ≡ false)
report_iff b m = ground arith

nested_in_iff :
    (message : String → Message) (path : String) (counts : Counts)
    → (nested_in message path counts ≡ []) ↔ AllPaths (λ q. path_contains path q ≡ false) counts
unfolding nested_in
nested_in_iff message path [] = ground arith
nested_in_iff message path ((q, n) ∷ counts) =
    append-nil_iff (report_iff (path_contains path q) (message q))
      (nested_in_iff message path counts)

abbrev pub InputOk : PathCounter → String × ℕ → Type 0
InputOk counter e =
    (ltb 1 e.1 ≡ false)
    × (found_in_both counter e.0 ≡ false)
    × AllPaths (λ q. path_contains e.0 q ≡ false) counter.input_count
    × AllPaths (λ q. path_contains e.0 q ≡ false) counter.output_count

abbrev pub OutputOk : PathCounter → String × ℕ → Type 0
OutputOk counter e =
    (ltb 1 e.1 ≡ false)
    × AllPaths (λ q. path_contains e.0 q ≡ false) counter.output_count
    × AllPaths (λ q. path_contains e.0 q ≡ false) counter.input_count

flat_iff : {A B C D E : Type 0} → (A × (B × (C × (D × E)))) ↔ ((A × B × C × D) × E)
flat_iff = (
  (λ v. ((v.0, v.1.0, v.1.1.0, v.1.1.1.0), v.1.1.1.1)),
  (λ v. (v.0.0, (v.0.1, (v.0.2, (v.0.3, v.1))))),
)

input_messages_iff :
    (counter : PathCounter) (counts : Counts)
    → (input_messages counter counts ≡ []) ↔ All (InputOk counter) counts
unfolding input_messages
input_messages_iff counter [] = ground arith
input_messages_iff counter ((p, n) ∷ counts) =
    iff_trans
      (append-nil_iff (report_iff (ltb 1 n) (duplicate_input p)) (
        append-nil_iff (report_iff (found_in_both counter p) (in_both p)) (
          append-nil_iff (nested_in_iff (nested_inputs p) p counter.input_count) (
            append-nil_iff (nested_in_iff (input_in_output p) p counter.output_count)
              (input_messages_iff counter counts)))))
      flat_iff

output_messages_iff :
    (counter : PathCounter) (counts : Counts)
    → (output_messages counter counts ≡ []) ↔ All (OutputOk counter) counts
unfolding output_messages
output_messages_iff counter [] = ground arith
output_messages_iff counter ((p, n) ∷ counts) =
    iff_trans
      (append-nil_iff (report_iff (ltb 1 n) (duplicate_output p)) (
        append-nil_iff (nested_in_iff (nested_outputs p) p counter.output_count) (
          append-nil_iff (nested_in_iff (output_in_input p) p counter.input_count)
            (output_messages_iff counter counts))))
      ((λ v. ((v.0, v.1.0, v.1.1.0), v.1.1.1)), (λ v. (v.0.0, (v.0.1, (v.0.2, v.1)))))

-- The relation between all inputs, and between all outputs, that keeps the counter silent; `D` is
-- that two paths differ, and `Q` that the first does not lie below the second.
square_iff :
    (D Q : String → String → Type 0)
    → ((p : String) → Q p p)
    → (paths : List String)
    → Pairwise (λ p q. (D p q × Q p q × Q q p)) paths
      ↔ (Pairwise D paths × All (λ p. All (Q p) paths) paths)
square_iff D Q r [] = ((λ v. (tt, tt)), (λ v. tt))
square_iff D Q r (p ∷ paths) = (
  (λ v.
      let w = (square_iff D Q r paths).0 v.1 in
      (
        (All_map (λ q t. t.0) paths v.0, w.0),
        (
          (r p, All_map (λ q t. t.1) paths v.0),
          (All-prod_iff (λ q. Q q p) (λ q. All (Q q) paths) paths).1
              (All_map (λ q t. t.2) paths v.0, w.1),
        ),
      )),
  (λ v.
      let w = (All-prod_iff (λ q. Q q p) (λ q. All (Q q) paths) paths).0 v.1.1 in
      (
        All_zip3 (D p) (Q p) (λ q. Q q p) paths v.0.0 v.1.0.1 w.0,
        (square_iff D Q r paths).1 (v.0.1, w.1),
      )),
)

on_paths_iff :
    (P : String → Type 0) (paths : List String) → AllPaths P (register_all [] paths) ↔ All P paths
on_paths_iff P paths = iff_trans (AllPaths-register_all P [] paths) ((λ v. v.1), (λ v. (tt, v)))

on_pairs_iff :
    (Q : String → String → Type 0) (paths others : List String)
    → AllPaths (λ p. AllPaths (Q p) (register_all [] others)) (register_all [] paths)
      ↔ All (λ p. All (Q p) others) paths
on_pairs_iff Q paths others =
    iff_trans (on_paths_iff (λ p. AllPaths (Q p) (register_all [] others)) paths)
      (All_iff (λ p. on_paths_iff (Q p) others) paths)

abbrev pub counter_of : List String → List String → PathCounter
counter_of ins outs = record {
  input_count = register_all [] ins;
  output_count = register_all [] outs;
}

abbrev Free : String → String → Type 0
Free p q = path_contains p q ≡ false

-- No path of an input is the path of an output.
found_in_both_iff :
    (ins outs : List String)
    → AllPaths (λ p. found_in_both (counter_of ins outs) p ≡ false) (register_all [] ins)
      ↔ All (λ p. All (λ q. q ≢ p) outs) ins
unfolding found_in_both
found_in_both_iff ins outs =
    let counter = counter_of ins outs in
    let counted =
      (on_paths_iff (λ p. is_counted p (register_all [] ins) ≡ true) ins).0
        (AllPaths-is_counted (register_all [] ins)) in
    iff_trans (on_paths_iff (λ p. found_in_both counter p ≡ false) ins) (
      iff_trans
        (
          All_map2 (λ p c h. ground (arith, c, h)) ins counted,
          All_map2 (λ p c h. ground (arith, c, h)) ins counted,
        )
        (All_iff
          (λ p.
            iff_trans (is_counted_iff p (register_all [] outs)) (on_paths_iff (λ q. q ≢ p) outs))
          ins))

-- What the counter reports nothing of, in pieces.
record Silent (ins outs : List String) : Type 0 where
  once_in : Pairwise (λ p q. p ≢ q) ins
  once_out : Pairwise (λ p q. p ≢ q) outs
  differ : All (λ p. All (λ q. q ≢ p) outs) ins
  in_in : All (λ p. All (Free p) ins) ins
  in_out : All (λ p. All (Free p) outs) ins
  out_out : All (λ p. All (Free p) outs) outs
  out_in : All (λ p. All (Free p) ins) outs

error_messages-Silent :
    (ins outs : List String) → (error_messages (counter_of ins outs) ≡ []) ↔ Silent ins outs
unfolding error_messages
error_messages-Silent ins outs =
    let counter = counter_of ins outs in
    let a = register_all [] ins in
    let b = register_all [] outs in
    iff_trans (append-nil_iff (input_messages_iff counter a) (output_messages_iff counter b)) (
      (λ v. record {
        once_in = (register_all-AllOnce ins).0 (All_map (λ e t. t.0) a v.0);
        once_out = (register_all-AllOnce outs).0 (All_map (λ e t. t.0) b v.1);
        differ = (found_in_both_iff ins outs).0 (All_map (λ e t. t.1) a v.0);
        in_in = (on_pairs_iff Free ins ins).0 (All_map (λ e t. t.2) a v.0);
        in_out = (on_pairs_iff Free ins outs).0 (All_map (λ e t. t.3) a v.0);
        out_out = (on_pairs_iff Free outs outs).0 (All_map (λ e t. t.1) b v.1);
        out_in = (on_pairs_iff Free outs ins).0 (All_map (λ e t. t.2) b v.1);
      }),
      (λ s. (
        All_map2 (λ e w once. (once, w.0, w.1, w.2)) a
            (All_zip3 (λ e. found_in_both counter e.0 ≡ false) (λ e. AllPaths (Free e.0) a)
              (λ e. AllPaths (Free e.0) b) a ((found_in_both_iff ins outs).1 (Silent.differ s))
              ((on_pairs_iff Free ins ins).1 (Silent.in_in s))
              ((on_pairs_iff Free ins outs).1 (Silent.in_out s)))
            ((register_all-AllOnce ins).1 (Silent.once_in s)),
        All_zip3 (λ e. ltb 1 e.1 ≡ false) (λ e. AllPaths (Free e.0) b) (λ e. AllPaths (Free e.0) a)
            b ((register_all-AllOnce outs).1 (Silent.once_out s))
            ((on_pairs_iff Free outs outs).1 (Silent.out_out s))
            ((on_pairs_iff Free outs ins).1 (Silent.out_in s)),
      )),
    )

abbrev Unrelated : String → String → Type 0
Unrelated p q = (p ≢ q) × Free p q × Free q p

Silent-Unrelated :
    (ins outs : List String)
    → Silent ins outs
      ↔ (Pairwise Unrelated ins × Pairwise Unrelated outs × All (λ p. All (Unrelated p) outs) ins)
Silent-Unrelated ins outs = (
  (λ s. (
    (square_iff (λ p q. p ≢ q) Free path_contains_self ins).1 (Silent.once_in s, Silent.in_in s),
    (square_iff (λ p q. p ≢ q) Free path_contains_self outs).1
        (Silent.once_out s, Silent.out_out s),
    All_map
        (λ p t.
          All_zip3 (λ q. p ≢ q) (Free p) (λ q. Free q p) outs
            (All_map (λ q d e. d (sym e)) outs t.0) t.1 t.2)
        ins
        (All_zip3 (λ p. All (λ q. q ≢ p) outs) (λ p. All (Free p) outs)
          (λ p. All (λ q. Free q p) outs) ins (Silent.differ s) (Silent.in_out s)
          (All_swap Free outs ins (Silent.out_in s))),
  )),
  (λ v.
      let i = (square_iff (λ p q. p ≢ q) Free path_contains_self ins).0 v.0 in
      let o = (square_iff (λ p q. p ≢ q) Free path_contains_self outs).0 v.1 in
      record {
        once_in = i.0;
        once_out = o.0;
        differ = All_map (λ p h. All_map (λ q t e. t.0 (sym e)) outs h) ins v.2;
        in_in = i.1;
        in_out = All_map (λ p h. All_map (λ q t. t.1) outs h) ins v.2;
        out_out = o.1;
        out_in =
            All_swap (λ p q. Free q p) ins outs
              (All_map (λ p h. All_map (λ q t. t.2) outs h) ins v.2);
      }),
)

-- Nothing is reported exactly if no two of the paths, of inputs and outputs together, are the same
-- or one below the other.
pub error_messages_iff :
    (ins outs : List String)
    → (error_messages (counter_of ins outs) ≡ []) ↔ Pairwise AreApart (ins ++ outs)
error_messages_iff ins outs = iff_trans (error_messages-Silent ins outs) (
    iff_trans (Silent-Unrelated ins outs) (
      iff_trans (iff_sym (Pairwise-append_iff Unrelated ins outs))
        (iff_sym (Pairwise-iff AreApart-iff (ins ++ outs)))))
