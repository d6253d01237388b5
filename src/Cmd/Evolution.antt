-- ===== src/Cmd/Evolution.antt =====
-- How the uploads table may change from one world to a later one.
use mathlib.Core.Path.{subst}
use mathlib.Core.Option
use go_image_service.Base.{
  String, ◌≡◌, ◌≢◌, refl, sym, ap, ◌∙◌, inl, inr, Option, none, some, ◌==◌, string_eq, eq_of_==,
  Bool-cases, if_true, if_false, Result,
}
use go_image_service.Metadata.Table.{
  Row, Table, Same, Inserted, Updated, set_status, WriteSpec, done, undone, unconfirmed,
}

row_inj : (r r' : Row) → ◌≡◌ {A = Option Row} (some r) (some r') → r ≡ r'
row_inj r r' e = cc

some_ne_none : (r : Row) → ◌≢◌ {A = Option Row} (some r) none
some_ne_none r e = cc

-- `Author` is what is known of the user, the file name and the content type of a new row.
module _ (Author : String → String → String → Type 0) where
  -- A row that was there is there, with another status at most; a row that was not has an author.
  pub record IsEvolved (t t' : Table) : Type 0 where
    pub kept :
        (id : String) (row : Row)
        → t id ≡ some row
        → (s : String) × (t' id ≡ some (set_status s row))
    pub added :
        (id : String) (row : Row)
        → t id ≡ none
        → t' id ≡ some row
        → (row.id ≡ id) × Author row.user_id row.filename row.content_type

  pub refl-IsEvolved : (t : Table) → IsEvolved t t
  refl-IsEvolved t = record {
    kept = λ id row e. (row.status, e);
    added = λ id row n e. absurd (some_ne_none row (sym e ∙ n));
  }

  pub Same-IsEvolved : {t t' t'' : Table} → IsEvolved t t' → Same t' t'' → IsEvolved t t''
  Same-IsEvolved h same = record {
    kept = λ id row e. let (s, e') = h.kept id row e in (s, same id ∙ e');
    added = λ id row n e. h.added id row n (sym (same id) ∙ e);
  }

  Updated-added :
      (s k : String) (t' : Option Row) (row : Row)
      → ((r : Row) → t' ≡ some r → (r.id ≡ k) × Author r.user_id r.filename r.content_type)
      → Option.map (set_status s) t' ≡ some row
      → (row.id ≡ k) × Author row.user_id row.filename row.content_type
  Updated-added s k none row h e = absurd (some_ne_none row (sym e))
  Updated-added s k (some r) row h e =
      subst (λ (row : Row). (row.id ≡ k) × Author row.user_id row.filename row.content_type)
        (row_inj _ _ e) (h r refl)

  pub Updated-IsEvolved :
      (id : String) {t t' t'' : Table} (s : String)
      → IsEvolved t t'
      → Updated id s t' t''
      → IsEvolved t t''
  Updated-IsEvolved id {t} {t'} s h u = record {
    kept = λ k row e. elim (Bool-cases (k == id)) [
      | inl b ↦ (s, u k ∙ if_true _ _ _ b ∙ ap (Option.map (set_status s)) (h.kept k row e).1)
      | inr b ↦ let (x, e') = h.kept k row e in (x, u k ∙ if_false _ _ _ b ∙ e')
    ];
    added = λ k row n e. elim (Bool-cases (k == id)) [
      | inl b ↦
          Updated-added s k (t' k) row (λ r e'. h.added k r n e') (sym (u k ∙ if_true _ _ _ b) ∙ e)
      | inr b ↦ h.added k row n (sym (u k ∙ if_false _ _ _ b) ∙ e)
    ];
  }

  pub Inserted-IsEvolved :
      {t t' t'' : Table} (new : Row)
      → Author new.user_id new.filename new.content_type
      → IsEvolved t t'
      → Inserted new t' t''
      → IsEvolved t t''
  Inserted-IsEvolved {t} {t'} new author h (free, u) = record {
    kept = λ k row e. elim (Bool-cases (k == new.id)) [
      | inl b ↦
          absurd (some_ne_none _ (sym (h.kept k row e).1 ∙ ap t' (eq_of_== k new.id b) ∙ free))
      | inr b ↦ let (x, e') = h.kept k row e in (x, u k ∙ if_false _ _ _ b ∙ e')
    ];
    added = λ k row n e. elim (Bool-cases (k == new.id)) [
      | inl b ↦
          subst (λ (row : Row). (row.id ≡ k) × Author row.user_id row.filename row.content_type)
            (row_inj new row (sym (u k ∙ if_true _ _ _ b) ∙ e)) (sym (eq_of_== k new.id b), author)
      | inr b ↦ h.added k row n (sym (u k ∙ if_false _ _ _ b) ∙ e)
    ];
  }

  pub Write-IsEvolved :
      {Effect : Table → Table → Type 0} {t t' t'' : Table} {r : Result (Unit {0})}
      → (IsEvolved t t' → Effect t' t'' → IsEvolved t t'')
      → IsEvolved t t'
      → WriteSpec Effect t' t'' r
      → IsEvolved t t''
  Write-IsEvolved f h (done u) = f h u
  Write-IsEvolved f h (undone _ same) = Same-IsEvolved h same
  Write-IsEvolved f h (unconfirmed _ u) = f h u
