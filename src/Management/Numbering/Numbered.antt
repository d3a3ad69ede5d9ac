-- ===== src/Management/Numbering/Numbered.antt =====
-- The numbers of a rule's versions after any requests.
use yeti.Base.{ℕ, String, sym, ap, ◌∙◌, Option, List}
use yeti.Cel.{CelLib}
use yeti.Management.Notifier.{Json}
use yeti.Management.Store.{Database, Collection, Codec, World, FilteringRule}
use yeti.Management.Service.{Service}
use yeti.Management.Overlap.{rows-begin_update, rows-begin_deletion}
use yeti.Management.Numbering.{Keeps, IsConsecutive}
use yeti.Management.Numbering.Methods.{
  Kept, Kept-rows, Kept-create, Kept-finish_update, Kept-finish_deletion, Kept-update, Kept-delete,
  Kept-get, Kept-list,
}
use yeti.Management.Runs.{Step, creates, updates, deletes, gets, lists}
use yeti.Management.Runs.Overlapping.{
  Pending, Overlapping, starts, steps, reads_update, reads_deletion, writes_update, writes_deletion,
}

module _ (lib : CelLib) (show_nat : ℕ → String) (db : Database) (mongo : Collection) (codec : Codec)
    (json : Json) (s : Service) (row : Database.State db → String → Option FilteringRule)
    (numbers : Database.State db → String → List ℕ) (keeps : Keeps db numbers) where
  abbrev IsKept : World db mongo → Type 0
  IsKept = Kept lib show_nat db mongo codec json s numbers keeps

  IsKept-Step :
      {w w' : World db mongo}
      → Step lib show_nat db mongo codec json s row w w'
      → IsKept w
      → IsKept w'
  IsKept-Step (creates call req w) h =
      Kept-create lib show_nat db mongo codec json s numbers keeps call req w h
  IsKept-Step (updates call id req w) h =
      Kept-update lib show_nat db mongo codec json s numbers keeps call id req w h
  IsKept-Step (deletes call id w) h =
      Kept-delete lib show_nat db mongo codec json s numbers keeps call id w h
  IsKept-Step (gets id w) h = Kept-get lib show_nat db mongo codec json s numbers keeps id w h
  IsKept-Step (lists call w) h = Kept-list lib show_nat db mongo codec json s numbers keeps call w h

  -- Over a database that keeps the versions as SQL says, after any requests to create, update, delete,
  -- read and list filtering rules, refused and failed ones included, and also where they overlap, the
  -- versions that are stored of each rule are numbered from 1 on, without a gap and without a repetition,
  -- if that was so before them. The number and the version behind a write count as one step with it.
  pub Overlapping-IsConsecutive :
      (w₀ w : World db mongo) (ps : List Pending)
      → ((k : String) → IsConsecutive (numbers w₀.rows k))
      → Overlapping lib show_nat db mongo codec json s row w₀ w ps
      → (k : String) → IsConsecutive (numbers w.rows k)
  Overlapping-IsConsecutive w₀ w ps before starts = before
  Overlapping-IsConsecutive w₀ w ps before (steps run step) =
      IsKept-Step step (Overlapping-IsConsecutive w₀ _ ps before run)
  Overlapping-IsConsecutive w₀ w ps before (reads_update {w = v} call id req p run h) =
      Kept-rows lib show_nat db mongo codec json s numbers keeps v w
        (sym (ap (λ r. r.1.rows) h)
          ∙ rows-begin_update lib show_nat db mongo codec json s call id req v)
        (Overlapping-IsConsecutive w₀ v _ before run)
  Overlapping-IsConsecutive w₀ w ps before (reads_deletion {w = v} call id p run h) =
      Kept-rows lib show_nat db mongo codec json s numbers keeps v w
        (sym (ap (λ r. r.1.rows) h)
          ∙ rows-begin_deletion lib show_nat db mongo codec json s call id v)
        (Overlapping-IsConsecutive w₀ v _ before run)
  Overlapping-IsConsecutive w₀ w ps before (writes_update {w = v} qs rs p run e) =
      Kept-finish_update lib show_nat db mongo codec json s numbers keeps p v
        (Overlapping-IsConsecutive w₀ v _ before run)
  Overlapping-IsConsecutive w₀ w ps before (writes_deletion {w = v} qs rs p run e) =
      Kept-finish_deletion lib show_nat db mongo codec json s numbers keeps p v
        (Overlapping-IsConsecutive w₀ v _ before run)
