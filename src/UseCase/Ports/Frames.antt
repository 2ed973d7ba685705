-- ===== src/UseCase/Ports/Frames.antt =====
-- Composition of what stays the same.
use async_job_poc.Base.{◌∙◌}
use async_job_poc.Text.{Text}
use async_job_poc.UseCase.Ports.{View, Same, SameBut}

module _ {W : Type 0} {v : View W} where
  pub SameBut-of_Same : (id : Text) {w w' : W} → Same v w w' → SameBut v id w w'
  SameBut-of_Same id s = record {
    stored = λ other h. s.stored other;
    queued = s.queued;
    runs = s.runs;
  }

  pub Same-trans : {w w' w'' : W} → Same v w w' → Same v w' w'' → Same v w w''
  Same-trans s t = record {
    stored = λ id. t.stored id ∙ s.stored id;
    queued = t.queued ∙ s.queued;
    runs = t.runs ∙ s.runs;
  }

  pub SameBut-trans :
      {id : Text} {w w' w'' : W} → SameBut v id w w' → SameBut v id w' w'' → SameBut v id w w''
  SameBut-trans s t = record {
    stored = λ other h. t.stored other h ∙ s.stored other h;
    queued = t.queued ∙ s.queued;
    runs = t.runs ∙ s.runs;
  }
