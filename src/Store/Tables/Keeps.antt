-- ===== src/Store/Tables/Keeps.antt =====
-- What a statement leaves true of the tables.
use manga_hub.Prelude.{String, inl, inr, Bool-cases}
use manga_hub.Models.{Time}
use manga_hub.Exec.Keeps.{Keeps}
use manga_hub.Store.Tables.{Tables, Store, Statement, statement}

module _ (P : Tables → Type 0) where
  abbrev pub On : Store → Type 0
  On s = P s.tables

  pub Keeps-statement :
      {A : Type 0} (label : String) (body : Statement A)
      → ((now : Time) (t : Tables) → P t → P (body now t).1)
      → Keeps On (statement label body)
  unfolding statement
  Keeps-statement label body keeps = record {
    after = λ s v. elim (Bool-cases (s.driver 0).fails) [
      | inl failed ↦ rw failed v
      | inr executed ↦ rw executed (keeps (s.driver 0).time s.tables v)
    ];
  }
