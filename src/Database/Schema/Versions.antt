-- ===== src/Database/Schema/Versions.antt =====
-- The version of a database file tells which migrations of database/schema.go it has had.
use echolist_backend.Base.{
  ℕ, zero, suc, ltb, if◌then◌else◌, ◌+◌, true, Option, none, some, List, [], ◌∷◌, ◌++◌, drop,
  length, length-append, ◌≡◌, refl, sym, ap, ◌∙◌, arith,
}
use mathlib.Core.Path.{subst}
use mathlib.Core.List.{append_assoc, append-nil}
use echolist_backend.Base.Triples.{Ends, Triple, Triple-pure, Triple-bind, ends-map}
use echolist_backend.Database.Conn.{Fault}
use echolist_backend.Database.Schema.{
  Schema, Opening, running, statement, migrations, get_schema_version, apply_migration, apply_from,
  create_schema, new_database,
}

-- The schema after some migrations.
abbrev pub after : List (Schema → Schema) → Schema → Schema
after [] x = x
after (m ∷ ms) x = after ms (m x)

after-append :
    (ms : List (Schema → Schema)) (m : Schema → Schema) (x : Schema)
    → after (ms ++ (m ∷ [])) x ≡ m (after ms x)
after-append [] m x = refl
after-append (n ∷ ms) m x = after-append ms m (n x)

length-extended :
    (ms : List (Schema → Schema)) (m : Schema → Schema) → length (ms ++ (m ∷ [])) ≡ length ms + 1
length-extended ms m = omega (arith, length-append ms (m ∷ []))

-- What the connection has set stays.
abbrev SameFlags : Opening → Opening → Type 0
SameFlags s s' = (s'.foreign_keys ≡ s.foreign_keys) × (s'.is_wal ≡ s.is_wal)

-- A migration is applied as a whole, with its version, or not at all.
apply_migration_lem :
    (version : ℕ) (m : Schema → Schema) (s : Opening)
    → Ends
        (λ _ s'. (s'.user_version ≡ version) × (s'.schema ≡ m s.schema) × SameFlags s s')
        (λ _ s'. (s'.user_version ≡ s.user_version) × (s'.schema ≡ s.schema) × SameFlags s s')
        (apply_migration version m s)
unfolding apply_migration statement
apply_migration_lem version m s = ground arith

-- The file has had these migrations since it was opened.
abbrev pub Had : Opening → List (Schema → Schema) → Opening → Type 0
Had before ms s =
    (s.user_version ≡ before.user_version + length ms) × (s.schema ≡ after ms before.schema)

-- The version of a file that has had all of some migrations.
abbrev pub latest : ℕ → ℕ → ℕ
latest version count = if ltb version count then count else version

-- The PRAGMA statements of New have run.
abbrev pub PragmasSet : Opening → Type 0
PragmasSet s = (s.foreign_keys ≡ true) × (s.is_wal ≡ true)

-- It has had the first few of those that were left, each as a whole.
abbrev pub Reached : List (Schema → Schema) → Opening → Opening → Type 0
Reached left before s =
    (done : List (Schema → Schema)) × (rest : List (Schema → Schema)) × (done ++ rest ≡ left)
    × Had before done s

module _ (left : List (Schema → Schema)) (before : Opening) where
  one_more :
      (done rest : List (Schema → Schema)) (m : Schema → Schema) (version : ℕ)
      → done ++ (m ∷ rest) ≡ left
      → version ≡ before.user_version + length done
      → Triple
          (λ s. Had before done s × PragmasSet s)
          (apply_migration (version + 1) m)
          (λ _ s. Had before (done ++ (m ∷ [])) s × PragmasSet s)
          (λ _ s. Reached left before s)
  one_more done rest m version e v = record {
    at = λ s h.
        ends-map _ _ (apply_migration (version + 1) m s)
          (λ _ s' (u, x, (f, g)). (
            (
              u ∙ ap (λ n. n + 1) v ∙ (let more = length-extended done m in omega (arith, more)),
              x ∙ ap m h.0.1 ∙ sym (after-append done m before.schema),
            ),
            (f ∙ h.1.0, g ∙ h.1.1),
          ))
          (λ _ s' (u, x, fg). (done, m ∷ rest, e, (u ∙ h.0.0, x ∙ h.0.1)))
          (apply_migration_lem (version + 1) m s);
  }

  apply_from_lem :
      (done rest : List (Schema → Schema)) (version : ℕ)
      → done ++ rest ≡ left
      → version ≡ before.user_version + length done
      → Triple
          (λ s. Had before done s × PragmasSet s)
          (apply_from version rest)
          (λ _ s. Had before left s × PragmasSet s)
          (λ _ s. Reached left before s)
  unfolding apply_from
  apply_from_lem done [] version e v =
      Triple-pure tt
        (λ s h. subst (λ ms. Had before ms s × PragmasSet s) (sym (append-nil done) ∙ e) h)
  apply_from_lem done (m ∷ rest) version e v = Triple-bind (one_more done rest m version e v) (λ _.
      apply_from_lem (done ++ (m ∷ [])) rest (version + 1) (append_assoc done (m ∷ []) rest ∙ e)
        (let more = length-extended done m in omega (arith, more, v)))

-- A statement, by what it does on a file whose remaining faults are any.
statement-Triple :
    {A : Type 0} (P R : Opening → Type 0) (Q : A → Opening → Type 0) (f : Opening → A × Opening)
    → ((s : Opening) (fs : List (Option Fault))
        → P s
        → Q (f (record s { faults = fs })).0 (f (record s { faults = fs })).1)
    → ((s : Opening) (fs : List (Option Fault)) → P s → R (record s { faults = fs }))
    → Triple P (statement f) Q (λ _ s. R s)
unfolding statement
statement-Triple P R Q f works fails = record { at = λ s p. ran s.faults s p }
  where
    ran : (fs : List (Option Fault)) (s : Opening) → P s → Ends Q (λ _ s'. R s') (running f fs s)
    ran [] s p = works s s.faults p
    ran (none ∷ fs) s p = works s fs p
    ran (some x ∷ fs) s p = fails s fs p

module _ (before : Opening) where
  -- What the statements before the migrations keep.
  abbrev Opened : Opening → Type 0
  Opened s = (s.user_version ≡ before.user_version) × (s.schema ≡ before.schema)

  unreached : (left : List (Schema → Schema)) (s : Opening) → Opened s → Reached left before s
  unreached left s h = ([], left, refl, (h.0 ∙ omega arith, h.1))

  create_schema_lem :
      (ms : List (Schema → Schema))
      → Triple
          (λ s. Opened s × PragmasSet s)
          (create_schema ms)
          (λ _ s. Had before (drop before.user_version ms) s × PragmasSet s)
          (λ _ s. Reached (drop before.user_version ms) before s)
  unfolding create_schema get_schema_version
  create_schema_lem ms =
      Triple-bind
        (statement-Triple (λ s. Opened s × PragmasSet s)
          (λ s. Reached (drop before.user_version ms) before s)
          (λ version s. (version ≡ before.user_version) × (Opened s × PragmasSet s))
          (λ s. (s.user_version, s)) (λ s fs h. (h.0.0, h))
          (λ s fs h. unreached (drop before.user_version ms) (record s { faults = fs }) h.0))
        (λ version. record {
          at = λ s (e, (h, g)).
              (subst
                  (λ v.
                    Triple (λ s. Had before [] s × PragmasSet s) (apply_from version (drop v ms))
                      (λ _ s. Had before (drop before.user_version ms) s × PragmasSet s)
                      (λ _ s. Reached (drop before.user_version ms) before s))
                  (sym e)
                  (apply_from_lem (drop before.user_version ms) before []
                    (drop before.user_version ms) version refl (e ∙ omega arith))).at
                s ((h.0 ∙ omega arith, h.1), g);
        })

length-drop : {A : Type 0} (n : ℕ) (xs : List A) → n + length (drop n xs) ≡ latest n (length xs)
length-drop zero xs = ground arith
length-drop (suc n) [] = ground arith
length-drop (suc n) (x ∷ xs) = ground (arith, length-drop n xs)

opening_lem :
    (s : Opening)
    → Ends
        (λ _ s'. Had s (drop s.user_version migrations) s' × PragmasSet s')
        (λ _ s'. Reached (drop s.user_version migrations) s s')
        (new_database s)
unfolding new_database
opening_lem s = opening.at s (refl, refl)
  where
    left : List (Schema → Schema)
    left = drop s.user_version migrations

    opening :
        Triple
          (Opened s)
          new_database
          (λ _ s'. Had s left s' × PragmasSet s')
          (λ _ s'. Reached left s s')
    opening =
        Triple-bind
          (statement-Triple (Opened s) (λ x. Reached left s x)
            (λ _ x. Opened s x × (x.is_wal ≡ true)) (λ x. (tt, record x { is_wal = true }))
            (λ x fs h. (h, refl)) (λ x fs h. unreached s left (record x { faults = fs }) h))
          (λ _.
            Triple-bind
              (statement-Triple (λ x. Opened s x × (x.is_wal ≡ true)) (λ x. Reached left s x)
                (λ _ x. Opened s x × PragmasSet x) (λ x. (tt, record x { foreign_keys = true }))
                (λ x fs h. (h.0, (refl, h.1)))
                (λ x fs h. unreached s left (record x { faults = fs }) h.0))
              (λ _. create_schema_lem s migrations))

-- New on a database file whose version is not negative, whatever statements fail. After a success
-- both PRAGMA statements have run and the file has had, once each and in their order, exactly the
-- migrations beyond its version; its version is then the number of migrations, or the one it had if
-- that was greater. After an error it has had the first few of those migrations, each as a whole, and
-- its version is that of the last one it has had.
pub new_database_lem :
    (s : Opening)
    → Ends
        (λ _ s'.
          Had s (drop s.user_version migrations) s'
          × PragmasSet s'
          × (s'.user_version ≡ latest s.user_version (length migrations)))
        (λ _ s'. Reached (drop s.user_version migrations) s s')
        (new_database s)
new_database_lem s =
    ends-map _ _ (new_database s)
      (λ _ s' (had, set). (had, set, had.0 ∙ length-drop s.user_version migrations))
      (λ _ s' reached. reached) (opening_lem s)
