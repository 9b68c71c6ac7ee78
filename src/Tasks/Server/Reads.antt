-- ===== src/Tasks/Server/Reads.antt =====
-- Calls in the handlers of tasks/*.go that change no table, or none when they fail.
use echolist_backend.Base.{
  ℕ, ◌+◌, Option, none, some, List, [], ◌∷◌, Bytes, ◌≡◌, refl, sym, ap, ◌∙◌, arith,
}
use echolist_backend.Base.Action.{Result, ok, err, Action, pure, lift, proceed, ◌>>=◌}
use echolist_backend.Common.Errors.{ConnectError, Message}
use echolist_backend.Common.Uuid.{validate_uuid_v4}
use echolist_backend.Common.Paths.{Os}
use echolist_backend.Database.Types.{Tables}
use echolist_backend.Database.Conn.{Conn, DbError}
use echolist_backend.Database.Conn.Preserves.{
  Preserves, Preserves-pure, Preserves-fail, Preserves-bind, Preserves-query,
}
use echolist_backend.Database.Conn.RollsBack.{RollsBack}
use echolist_backend.Database.Notes.{found_row}
use echolist_backend.Database.Helpers.{query_tasks_by_task_list_id}
use echolist_backend.Database.TaskLists
use echolist_backend.Tasks.Types.{SubTask, MainTask}
use echolist_backend.Tasks.Recurrence.{RRuleLib}
use echolist_backend.Database.Answers.{found_or}
use echolist_backend.Tasks.Server.{
  World, Handler, on_db, new_id, new_sub_ids, new_ids, checked_id, checked_sub_ids, checked_ids,
  advanced_or_error,
}

-- The call leaves the tables alone, or does so when it fails.
pub record Reads {A : Type 0} (m : Handler A) : Type 0 where
  pub at : (w : World) → (m w).1.conn.tables ≡ w.conn.tables

pub record Harmless {A : Type 0} (m : Handler A) : Type 0 where
  pub at :
      (w : World) (e : ConnectError) (w' : World)
      → m w ≡ (err e, w')
      → w'.conn.tables ≡ w.conn.tables

module _ {A : Type 0} where
  pub Reads-lift : (r : Result ConnectError A) → Reads (lift r)
  Reads-lift r = record { at = λ w. refl }

  pub Reads-pure : (a : A) → Reads (pure a)
  Reads-pure a = record { at = λ w. refl }

  Harmless-pure : (a : A) → Harmless (pure a)
  Harmless-pure a = record { at = λ w e w' h. ground arith }

module _ {A B : Type 0} where
  pub proceed-Reads :
      (f : A → Handler B) (t : Tables) (p : Result ConnectError A × World)
      → p.1.conn.tables ≡ t
      → ((a : A) → Reads (f a))
      → (proceed f p.0 p.1).1.conn.tables ≡ t
  proceed-Reads f t (ok a, w) h k = (k a).at w ∙ h
  proceed-Reads f t (err e, w) h k = h

  pub Reads-bind :
      (m : Handler A) (f : A → Handler B) → Reads m → ((a : A) → Reads (f a)) → Reads (m >>= f)
  Reads-bind m f km kf = record { at = λ w. proceed-Reads f w.conn.tables (m w) (km.at w) kf }

  pub proceed-Harmless :
      (f : A → Handler B) (t : Tables) (p : Result ConnectError A × World) (e : ConnectError)
      (w' : World)
      → p.1.conn.tables ≡ t
      → ((a : A) → Harmless (f a))
      → proceed f p.0 p.1 ≡ (err e, w')
      → w'.conn.tables ≡ t
  proceed-Harmless f t (ok a, w) e w' h k r = (k a).at w e w' r ∙ h
  proceed-Harmless f t (err x, w) e w' h k r = ap (λ q. q.1.conn.tables) (sym r) ∙ h

  pub Harmless-bind :
      (m : Handler A) (f : A → Handler B)
      → Reads m
      → ((a : A) → Harmless (f a))
      → Harmless (m >>= f)
  Harmless-bind m f km kf = record {
    at = λ w e w' h. proceed-Harmless f w.conn.tables (m w) e w' (km.at w) kf h;
  }

module _ {A B : Type 0} where
  -- An error of a check is the handler's.
  pub after_lift :
      (r : Result ConnectError A) (f : A → Handler B) (w : World) (e : ConnectError) (w' : World)
      → proceed f r w ≡ (err e, w')
      → ((a : A) → f a w ≡ (err e, w') → w'.conn.tables ≡ w.conn.tables)
      → w'.conn.tables ≡ w.conn.tables
  after_lift (ok a) f w e w' h k = k a h
  after_lift (err x) f w e w' h k = ap (λ q. q.1.conn.tables) (sym h)

  pub answered_on :
      (k : Result DbError A → Handler B) (g : A → B) (w : World) (p : Result DbError A × Conn)
      (t : Tables) (e : ConnectError) (w' : World)
      → ((a : A) → k (ok a) ≡ pure (g a))
      → ((x : DbError) → Reads (k (err x)))
      → ((x : DbError) (c : Conn) → p ≡ (err x, c) → c.tables ≡ t)
      → k p.0 (record w { conn = p.1 }) ≡ (err e, w')
      → w'.conn.tables ≡ t
  answered_on k g w (ok a, c) t e w' succeeds fails undone h =
      let same = ap (λ (f : Handler B). f (record w { conn = c })) (succeeds a) in ground arith
  answered_on k g w (err x, c) t e w' succeeds fails undone h =
      ap (λ q. q.1.conn.tables) (sym h) ∙ (fails x).at (record w { conn = c }) ∙ undone x c refl

  -- A last call of the database, whose error the handler returns.
  pub Harmless-on_db :
      (m : Action Conn DbError A) (k : Result DbError A → Handler B) (g : A → B)
      → RollsBack m
      → ((a : A) → k (ok a) ≡ pure (g a))
      → ((x : DbError) → Reads (k (err x)))
      → Harmless (on_db m >>= k)
  Harmless-on_db m k g undone succeeds fails = record {
    at = λ w e w' h.
        answered_on k g w (m w.conn) w.conn.tables e w' succeeds fails
          (λ x c r. undone.at w.conn x c r) h;
  }

pub Reads-on_db :
    {A : Type 0} (m : Action Conn DbError A)
    → ((t : Tables) → Preserves (λ t'. t' ≡ t) m)
    → Reads (on_db m)
Reads-on_db m k = record { at = λ w. (k w.conn.tables).at w.conn refl }

found_row-Reads : {A : Type 0} (o : Option A) (t : Tables) → Preserves (λ t'. t' ≡ t) (found_row o)
found_row-Reads none t = Preserves-fail DbError.not_found
found_row-Reads (some a) t = Preserves-pure a

pub get_task_list-Reads :
    (id : Bytes) (t : Tables) → Preserves (λ t'. t' ≡ t) (TaskLists.get_task_list id)
unfolding TaskLists.get_task_list query_tasks_by_task_list_id
get_task_list-Reads id t = Preserves-bind _ _ (Preserves-query _) (λ row.
    Preserves-bind _ _ (found_row-Reads row t)
      (λ l. Preserves-bind _ _ (Preserves-query _) (λ rows. Preserves-pure _)))

pub found_or-Reads : {A : Type 0} (a f : Message) (r : Result DbError A) → Reads (found_or a f r)
found_or-Reads a f (ok x) = Reads-pure x
found_or-Reads a f (err DbError.not_found) = record { at = λ w. refl }
found_or-Reads a f (err DbError.constraint) = record { at = λ w. refl }
found_or-Reads a f (err (DbError.fault x)) = record { at = λ w. refl }

module _ (os : Os) (lib : RRuleLib) (new_string : ℕ → Bytes) (data_dir : Bytes) where
  new_id-Reads : Reads (new_id os lib new_string data_dir)
  new_id-Reads = record { at = λ w. refl }

  new_sub_ids-Reads : (ss : List SubTask) → Reads (new_sub_ids os lib new_string data_dir ss)
  unfolding new_sub_ids
  new_sub_ids-Reads [] = Reads-pure []
  new_sub_ids-Reads (s ∷ ss) = record {
    at = λ w.
        let w1 = record w { issued = w.issued + 1 } in
        proceed-Reads _ w.conn.tables (new_sub_ids os lib new_string data_dir ss w1)
          ((new_sub_ids-Reads ss).at w1) (λ rest. record { at = λ w. refl });
  }

  pub new_ids-Reads : (ts : List MainTask) → Reads (new_ids os lib new_string data_dir ts)
  unfolding new_ids
  new_ids-Reads [] = Reads-pure []
  new_ids-Reads (t ∷ ts) = record {
    at = λ w.
        let w1 = record w { issued = w.issued + 1 } in
        proceed-Reads _ w.conn.tables (new_sub_ids os lib new_string data_dir t.sub_tasks w1)
          ((new_sub_ids-Reads t.sub_tasks).at w1)
          (λ subs. record {
            at = λ w2.
                proceed-Reads _ w2.conn.tables (new_ids os lib new_string data_dir ts w2)
                  ((new_ids-Reads ts).at w2) (λ rest. record { at = λ w. refl });
          });
  }

  checked_id-Reads : (id : Bytes) → Reads (checked_id os lib new_string data_dir id)
  checked_id-Reads [] = new_id-Reads
  checked_id-Reads (c ∷ s) = record {
    at = λ w.
        proceed-Reads _ w.conn.tables (lift (validate_uuid_v4 (c ∷ s)) w) refl
          (λ u. record { at = λ w. refl });
  }

  checked_sub_ids-Reads :
      (ss : List SubTask) → Reads (checked_sub_ids os lib new_string data_dir ss)
  unfolding checked_sub_ids
  checked_sub_ids-Reads [] = Reads-pure []
  checked_sub_ids-Reads (s ∷ ss) = record {
    at = λ w.
        proceed-Reads _ w.conn.tables (checked_id os lib new_string data_dir s.id w)
          ((checked_id-Reads s.id).at w)
          (λ id. record {
            at = λ w1.
                proceed-Reads _ w1.conn.tables (checked_sub_ids os lib new_string data_dir ss w1)
                  ((checked_sub_ids-Reads ss).at w1) (λ rest. record { at = λ w. refl });
          });
  }

  pub checked_ids-Reads : (ts : List MainTask) → Reads (checked_ids os lib new_string data_dir ts)
  unfolding checked_ids
  checked_ids-Reads [] = Reads-pure []
  checked_ids-Reads (t ∷ ts) = record {
    at = λ w.
        proceed-Reads _ w.conn.tables (checked_id os lib new_string data_dir t.id w)
          ((checked_id-Reads t.id).at w)
          (λ id. record {
            at = λ w1.
                proceed-Reads _ w1.conn.tables
                  (checked_sub_ids os lib new_string data_dir t.sub_tasks w1)
                  ((checked_sub_ids-Reads t.sub_tasks).at w1)
                  (λ subs. record {
                    at = λ w2.
                        proceed-Reads _ w2.conn.tables
                          (checked_ids os lib new_string data_dir ts w2)
                          ((checked_ids-Reads ts).at w2) (λ rest. record { at = λ w. refl });
                  });
          });
  }

  pub advanced_or_error-Reads :
      (o : Option (List MainTask)) → Reads (advanced_or_error os lib new_string data_dir o)
  advanced_or_error-Reads none = record { at = λ w. refl }
  advanced_or_error-Reads (some ts) = Reads-pure ts
