-- ===== src/Tasks/Stored/NewIds.antt =====
-- Tasks and messages without their ids, and what the new ids of tasks/create_task_list.go leave as it
-- is.
use echolist_backend.Base.{ℕ, ◌+◌, List, [], ◌∷◌, map, Bytes, ◌≡◌, refl, sym, ap, ◌∙◌, arith}
use echolist_backend.Base.Action.{ok, >>=-InTurn, pure-injective}
use echolist_backend.Common.Paths.{Os}
use echolist_backend.Tasks.Types.{SubTask, MainTask, PbSubTask, PbMainTask}
use echolist_backend.Tasks.Recurrence.{RRuleLib}
use echolist_backend.Tasks.Convert.{
  proto_to_main_tasks, proto_to_subtasks, sub_task_to_proto, subtasks_to_proto, main_task_to_proto,
  main_tasks_to_proto,
}
use echolist_backend.Tasks.Server.{World, new_sub_ids, new_ids}

abbrev pub erase_sub : SubTask → SubTask
erase_sub s = record s { id = [] }

abbrev pub erase : MainTask → MainTask
erase t = record t { id = []; sub_tasks = map erase_sub t.sub_tasks }

-- The tasks of a message without their ids.
abbrev pub without_sub_id : PbSubTask → PbSubTask
without_sub_id s = record s { id = [] }

abbrev pub without_ids : List PbMainTask → List PbMainTask
without_ids =
    map λ (t : PbMainTask). record t { id = []; sub_tasks = map without_sub_id t.sub_tasks }

erase_sub-proto :
    (ss : List SubTask)
    → map without_sub_id (subtasks_to_proto ss) ≡ subtasks_to_proto (map erase_sub ss)
unfolding subtasks_to_proto
erase_sub-proto [] = refl
erase_sub-proto (s ∷ ss) = ap (λ r. without_sub_id (sub_task_to_proto s) ∷ r) (erase_sub-proto ss)

pub erase-proto :
    (ts : List MainTask) → without_ids (main_tasks_to_proto ts) ≡ main_tasks_to_proto (map erase ts)
unfolding main_tasks_to_proto
erase-proto [] = refl
erase-proto (t ∷ ts) =
    ap
      (λ ss.
        record (main_task_to_proto t) { id = []; sub_tasks = ss }
        ∷ without_ids (main_tasks_to_proto ts))
      (erase_sub-proto t.sub_tasks)
    ∙ ap (λ r. main_task_to_proto (erase t) ∷ r) (erase-proto ts)

subtasks_to_proto-inverse : (ss : List PbSubTask) → subtasks_to_proto (proto_to_subtasks ss) ≡ ss
unfolding subtasks_to_proto proto_to_subtasks
subtasks_to_proto-inverse [] = refl
subtasks_to_proto-inverse (s ∷ ss) = ap (λ r. s ∷ r) (subtasks_to_proto-inverse ss)

pub main_tasks_to_proto-inverse :
    (ts : List PbMainTask) → main_tasks_to_proto (proto_to_main_tasks ts) ≡ ts
unfolding main_tasks_to_proto proto_to_main_tasks
main_tasks_to_proto-inverse [] = refl
main_tasks_to_proto-inverse (t ∷ ts) =
    ap (λ ss. record t { sub_tasks = ss } ∷ main_tasks_to_proto (proto_to_main_tasks ts))
      (subtasks_to_proto-inverse t.sub_tasks)
    ∙ ap (λ r. t ∷ r) (main_tasks_to_proto-inverse ts)

module _ (os : Os) (lib : RRuleLib) (new_string : ℕ → Bytes) (data_dir : Bytes) where
  new_sub_ids-lem :
      (ss r : List SubTask) (w w' : World)
      → new_sub_ids os lib new_string data_dir ss w ≡ (ok r, w')
      → (map erase_sub r ≡ map erase_sub ss) × (w'.conn ≡ w.conn)
  unfolding new_sub_ids
  new_sub_ids-lem [] r w w' h = ground arith
  new_sub_ids-lem (s ∷ ss) r w w' h =
      let (rest, w1, first, last) =
        >>=-InTurn (new_sub_ids os lib new_string data_dir ss) _
          (record w { issued = w.issued + 1 }) w' r h in
      let (same, conn) = new_sub_ids-lem ss rest (record w { issued = w.issued + 1 }) w1 first in
      let (made, left) = pure-injective _ r w1 w' last in
      (
        sym (ap (map erase_sub) made) ∙ ap (λ rs. erase_sub s ∷ rs) same,
        ap (λ v. v.conn) (sym left) ∙ conn,
      )

  pub new_ids-lem :
      (ts r : List MainTask) (w w' : World)
      → new_ids os lib new_string data_dir ts w ≡ (ok r, w')
      → (map erase r ≡ map erase ts) × (w'.conn ≡ w.conn)
  unfolding new_ids
  new_ids-lem [] r w w' h = ground arith
  new_ids-lem (t ∷ ts) r w w' h =
      let w0 = record w { issued = w.issued + 1 } in
      let (subs, w1, first, next) =
        >>=-InTurn (new_sub_ids os lib new_string data_dir t.sub_tasks) _ w0 w' r h in
      let (rest, w2, second, last) =
        >>=-InTurn (new_ids os lib new_string data_dir ts) _ w1 w' r next in
      let (same_subs, conn1) = new_sub_ids-lem t.sub_tasks subs w0 w1 first in
      let (same, conn2) = new_ids-lem ts rest w1 w2 second in
      let (made, left) = pure-injective _ r w2 w' last in
      (
        sym (ap (map erase) made)
            ∙ ap (λ ss. record t { id = []; sub_tasks = ss } ∷ map erase rest) same_subs
            ∙ ap (λ rs. erase t ∷ rs) same,
        ap (λ v. v.conn) (sym left) ∙ conn2 ∙ conn1,
      )
