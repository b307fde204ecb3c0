-- ===== src/Exec/Errors.antt =====
-- Go errors as the steps see them: `ErrInterrupted` of exec/step.go, `multierror.Append` of
-- hashicorp/go-multierror, and the error of `fmt.Errorf` in exec/aggregate.go. The steps compare an
-- error with `ErrInterrupted` by identity, and search its text; they never look further into it.
use atc.Prelude.{◌≡◌, Bool, true, false, Option, some, List}

pub record ErrorApi : Type 1 where
  pub Error : Type 0
  -- exec.ErrInterrupted
  pub interrupted : Error
  -- err == ErrInterrupted
  pub is_interrupted : Error → Bool
  -- strings.Contains(err.Error(), ErrInterrupted.Error())
  pub mentions : Error → Bool
  -- multierror.Append(errors, err), with `none` for a nil `errors`
  pub append : Option Error → Error → Error
  -- fmt.Errorf("sources failed:\n%s", strings.Join(messages, "\n"))
  pub sources_failed : List Error → Error
  -- Identity is reflexive, and an error made by a library is a new value.
  pub interrupted_self : is_interrupted interrupted ≡ true
  pub append_new : (o : Option Error) (e : Error) → is_interrupted (append o e) ≡ false
  pub sources_new : (es : List Error) → is_interrupted (sources_failed es) ≡ false
  -- The text of a multierror lists the texts of its errors.
  pub mentions_self : (e : Error) → is_interrupted e ≡ true → mentions e ≡ true
  pub mentions_last :
      (o : Option Error) (e : Error) → mentions e ≡ true → mentions (append o e) ≡ true
  pub mentions_first : (d e : Error) → mentions d ≡ true → mentions (append (some d) e) ≡ true
