-- ===== src/Vsphere/Kept.antt =====
-- virtualmachine/vsphere: sessions, searches and the power operations leave the struct as it is.
use libretto.Base.{
  zero, suc, ℕ, String, Bool, true, false, Option, none, some, List, [], ◌∷◌, length,
}
use libretto.Go.Error.{Error, object_not_found}
use libretto.Go.Result.{Reply, answer, failure}
use libretto.Go.Action.{attempt, request}
use libretto.Go.Stays.{
  Stays, stays_rules, Stays-pure, Stays-fail, Stays-if, Stays-bind, Stays-attempt, Stays-note,
}
use libretto.Vsphere.Types.{Mor, Vm, VmSearchFilter}
use libretto.Vsphere.Api.{Cloud, Method, MoVm, Question, Task, retrieve}
use libretto.Vsphere.Session.{
  setup_session, parsed, connected, with_datacenters, get_datacenter, found, find_first,
}
use libretto.Vsphere.Session.Choices.{
  answered, answer_vsphere_question, matched, answer_loop, asked, answer_question_of,
}
use libretto.Vsphere.Search.{
  Position, Visit, machine, next, skip_deleted, folder_named, visit_folder, vm_named, visit_vm,
  visit, go_on, ask_children, visit_children, enter, descend, search_folders, from_list,
  search_tree, within_dc, retrieved, search_vm_by_uuid, by_name, find_vm, is_there, exists_vm,
}
use libretto.Vsphere.Power.{
  find_own, task_ended, run_task, wait_for_ip, start, guest_state_of, get_guest_state,
  power_state_of, get_power_state, halt,
}
use libretto.Vsphere.Destroy.{looked_at, is_task_in_progress, wait_for_tasks_to_finish, turn_off}

module _ {F : Type 0} (cloud : Cloud F) (P : Vm F → Type 0) where
  -- An action that keeps P.
  abbrev pub Kept : {A : Type 0} → Method F A → Type 0
  Kept m = Stays P m

  parsed-Kept : (uri : String) (r : Reply String) → Kept (parsed cloud uri r)
  parsed-Kept uri (failure e) = search stays_rules
  parsed-Kept uri (answer u) = search stays_rules

  connected-Kept : (r : Reply (Unit {0})) → Kept (connected cloud r)
  connected-Kept (failure e) = search stays_rules
  connected-Kept (answer u) = search stays_rules

  pub setup_session-Kept : Kept (setup_session cloud)
  unfolding setup_session
  setup_session-Kept = search (stays_rules, parsed-Kept, connected-Kept) depth 12

  found-Kept :
      {A : Type 0} (ask : Mor → Method F A) (sought : A → Bool) (lost : Mor → Error → Error)
      (missing : Error) (mor : Mor) (rest : Method F A) (r : Reply A)
      → Kept rest
      → Kept (found cloud ask sought lost missing mor rest r)
  found-Kept ask sought lost missing mor rest (failure e) h = Stays-fail _
  found-Kept ask sought lost missing mor rest (answer a) h =
      Stays-if (sought a) _ _ (Stays-pure a) h

  pub find_first-Kept :
      {A : Type 0} (ask : Mor → Method F A) (sought : A → Bool) (lost : Mor → Error → Error)
      (missing : Error) (mors : List Mor)
      → ((mor : Mor) → Kept (ask mor))
      → Kept (find_first cloud ask sought lost missing mors)
  unfolding find_first
  find_first-Kept ask sought lost missing [] h = Stays-fail missing
  find_first-Kept ask sought lost missing (mor ∷ mors) h =
      let rest = find_first-Kept ask sought lost missing mors h in
      Stays-bind (attempt (ask mor)) _ (Stays-attempt (ask mor) (h mor))
        λ r. found-Kept ask sought lost missing mor _ r rest

  with_datacenters-Kept :
      (name : String) (r : Reply (List Mor)) → Kept (with_datacenters cloud name r)
  with_datacenters-Kept name (failure e) = Stays-fail _
  with_datacenters-Kept name (answer mors) =
      find_first-Kept _ _ _ _ mors (λ mor. search stays_rules)

  pub get_datacenter-Kept : Kept (get_datacenter cloud)
  unfolding get_datacenter
  get_datacenter-Kept = search (stays_rules, with_datacenters-Kept) depth 12

  answered-Kept :
      (ans : String) (q : Question) (options : String) (r : Reply (Unit {0}))
      → Kept (answered cloud ans q options r)
  answered-Kept ans q options (answer a) = Stays-pure tt
  answered-Kept ans q options (failure e) = Stays-fail _

  answer_vsphere_question-Kept :
      (mo : MoVm) (q : Question) (intended : String)
      → Kept (answer_vsphere_question cloud mo q intended)
  unfolding answer_vsphere_question
  answer_vsphere_question-Kept mo q intended = search (stays_rules, answered-Kept) depth 12

  matched-Kept :
      (mo : MoVm) (q : Question) (intended : String) (r : Reply Bool)
      → Kept (matched cloud mo q intended r)
  matched-Kept mo q intended (failure e) = Stays-fail _
  matched-Kept mo q intended (answer false) = Stays-pure tt
  matched-Kept mo q intended (answer true) = answer_vsphere_question-Kept mo q intended

  answer_loop-Kept :
      (mo : MoVm) (q : Question) (responses : List (String × String))
      → Kept (answer_loop cloud mo q responses)
  unfolding answer_loop
  answer_loop-Kept mo q [] = Stays-pure tt
  answer_loop-Kept mo q ((qre, intended) ∷ responses) =
      Stays-bind _ _ (matched-Kept mo q intended (cloud.match_string qre q.text))
        λ _. answer_loop-Kept mo q responses

  asked-Kept : (mo : MoVm) (q : Option Question) → Kept (asked cloud mo q)
  asked-Kept mo none = Stays-pure tt
  asked-Kept mo (some q) = search (stays_rules, answer_loop-Kept)

  answer_question_of-Kept : (mo : MoVm) → Kept (answer_question_of cloud mo)
  unfolding answer_question_of
  answer_question_of-Kept mo = asked-Kept mo mo.question

  skip_deleted-Kept : {A : Type 0} (a : A) (e : Error) → Kept (skip_deleted cloud a e)
  skip_deleted-Kept a e = search stays_rules

  folder_named-Kept :
      (child : Mor) (p : Position) (name : String) (more : List String) (r : Reply String)
      → Kept (folder_named cloud child p name more r)
  folder_named-Kept child p name more (failure e) = skip_deleted-Kept (next p) e
  folder_named-Kept child p name more (answer s) = search stays_rules

  visit_folder-Kept :
      (child : Mor) (p : Position) (more : List String) → Kept (visit_folder cloud child p more)
  visit_folder-Kept child p [] = Stays-pure (next p)
  visit_folder-Kept child p (name ∷ more) = search (stays_rules, folder_named-Kept)

  vm_named-Kept : (p : Position) (r : Reply MoVm) → Kept (vm_named cloud p r)
  vm_named-Kept p (failure e) = skip_deleted-Kept (next p) e
  vm_named-Kept p (answer mo) = search stays_rules

  visit_vm-Kept :
      (child : Mor) (p : Position) (more : List String) → Kept (visit_vm cloud child p more)
  visit_vm-Kept child p (name ∷ more) = Stays-pure (next p)
  visit_vm-Kept child p [] = search (stays_rules, vm_named-Kept)

  visit-Kept : (child : Mor) (p : Position) → Kept (visit cloud child p)
  unfolding visit
  visit-Kept child p = search (stays_rules, visit_folder-Kept, visit_vm-Kept)

  go_on-Kept :
      (rest : Position → Method F Visit) (v : Visit)
      → ((p : Position) → Kept (rest p))
      → Kept (go_on cloud rest v)
  go_on-Kept rest (machine mo) h = Stays-pure (machine mo)
  go_on-Kept rest (next p) h = h p

  visit_children-Kept :
      (children : List Mor) (p : Position) → Kept (visit_children cloud children p)
  unfolding visit_children
  visit_children-Kept [] p = Stays-pure (next p)
  visit_children-Kept (child ∷ children) p =
      Stays-bind (visit cloud child p) _ (visit-Kept child p)
        λ v. go_on-Kept _ v (λ q. visit_children-Kept children q)

  enter-Kept :
      (path : String) (rest : Mor → String → List String → Method F (Option MoVm)) (p : Position)
      (ref : Option Mor)
      → ((mor : Mor) → Kept (rest mor p.name p.more))
      → Kept (enter cloud path rest p ref)
  enter-Kept path rest p none h = Stays-fail _
  enter-Kept path rest p (some mor) h = h mor

  descend-Kept :
      (path : String) (rest : Mor → String → List String → Method F (Option MoVm)) (v : Visit)
      → ((mor : Mor) (name : String) (more : List String) → Kept (rest mor name more))
      → Kept (descend cloud path rest v)
  descend-Kept path rest (machine mo) h = Stays-pure (some mo)
  descend-Kept path rest (next p) h = enter-Kept path rest p p.ref λ mor. h mor p.name p.more

  search_folders-Kept :
      (n : ℕ) (path : String) (mor : Mor) (name : String) (more : List String)
      → Kept (search_folders cloud n path mor name more)
  unfolding search_folders
  search_folders-Kept zero path mor name more = Stays-pure none
  search_folders-Kept (suc n) path mor name more =
      Stays-bind (ask_children cloud mor) _ (search stays_rules) λ children.
        Stays-bind _ _ (visit_children-Kept children _)
          λ v. descend-Kept path _ v (λ m s ss. search_folders-Kept n path m s ss)

  from_list-Kept :
      (path : String) (mor : Mor) (names : List String) → Kept (from_list cloud path mor names)
  from_list-Kept path mor [] = search stays_rules
  from_list-Kept path mor (name ∷ more) = search_folders-Kept (suc (length more)) path mor name more

  search_tree-Kept : (mor : Mor) (path : String) → Kept (search_tree cloud mor path)
  unfolding search_tree
  search_tree-Kept mor path = search (stays_rules, from_list-Kept)

  within_dc-Kept : (b : Bool) → Kept (within_dc cloud b)
  within_dc-Kept true = search (stays_rules, get_datacenter-Kept)
  within_dc-Kept false = Stays-pure none

  retrieved-Kept : (uuid : String) (mor : Option Mor) → Kept (retrieved cloud uuid mor)
  retrieved-Kept uuid none = Stays-fail _
  retrieved-Kept uuid (some mor) = search stays_rules

  search_vm_by_uuid-Kept : (filter : VmSearchFilter) → Kept (search_vm_by_uuid cloud filter)
  unfolding search_vm_by_uuid
  search_vm_by_uuid-Kept filter = search (stays_rules, within_dc-Kept, retrieved-Kept) depth 12

  by_name-Kept : (path : String) → Kept (by_name cloud path)
  by_name-Kept path = search (stays_rules, get_datacenter-Kept, search_tree-Kept)

  pub find_vm-Kept : (filter : VmSearchFilter) → Kept (find_vm cloud filter)
  unfolding find_vm
  find_vm-Kept filter =
      search (stays_rules, by_name-Kept, search_vm_by_uuid-Kept, answer_question_of-Kept) depth 12

  is_there-Kept : (r : Reply MoVm) → Kept (is_there cloud r)
  is_there-Kept (answer mo) = Stays-pure true
  is_there-Kept (failure (object_not_found e name)) = Stays-pure false
  is_there-Kept (failure e) = Stays-fail e

  pub exists_vm-Kept : (filter : VmSearchFilter) → Kept (exists_vm cloud filter)
  unfolding exists_vm
  exists_vm-Kept filter = search (stays_rules, find_vm-Kept, is_there-Kept) depth 12

  pub find_own-Kept : Kept (find_own cloud)
  find_own-Kept = search (stays_rules, find_vm-Kept)

  pub task_ended-Kept :
      (failed : Error → Error) (info : Option Error) → Kept (task_ended cloud failed info)
  task_ended-Kept failed none = Stays-pure tt
  task_ended-Kept failed (some e) = Stays-fail _

  pub run_task-Kept :
      (task : Task) (creating waiting : String) (failed : Error → Error)
      → Kept (run_task cloud task creating waiting failed)
  unfolding run_task
  run_task-Kept task creating waiting failed = search (stays_rules, task_ended-Kept) depth 12

  wait_for_ip-Kept : (mo : MoVm) → Kept (wait_for_ip cloud mo)
  unfolding wait_for_ip
  wait_for_ip-Kept mo = search stays_rules depth 12

  start-Kept : Kept (start cloud)
  unfolding start
  start-Kept = search (stays_rules, find_own-Kept, run_task-Kept, wait_for_ip-Kept) depth 14

  guest_state_of-Kept : (r : Reply MoVm) → Kept (guest_state_of cloud r)
  guest_state_of-Kept (failure e) = Stays-fail _
  guest_state_of-Kept (answer mo) = search stays_rules

  pub get_guest_state-Kept : Kept (get_guest_state cloud)
  unfolding get_guest_state
  get_guest_state-Kept = search (stays_rules, find_own-Kept, guest_state_of-Kept)

  power_state_of-Kept : (r : Reply MoVm) → Kept (power_state_of cloud r)
  power_state_of-Kept (failure e) = Stays-fail _
  power_state_of-Kept (answer mo) = Stays-pure _

  pub get_power_state-Kept : Kept (get_power_state cloud)
  unfolding get_power_state
  get_power_state-Kept = search (stays_rules, find_own-Kept, power_state_of-Kept)

  halt-Kept : Kept (halt cloud)
  unfolding halt
  halt-Kept =
      search (stays_rules, get_guest_state-Kept, start-Kept, find_own-Kept, run_task-Kept) depth 14

  looked_at-Kept :
      (rest : Method F Bool) (r : Reply String) → Kept rest → Kept (looked_at cloud rest r)
  looked_at-Kept rest (failure e) h = h
  looked_at-Kept rest (answer state) h = Stays-if _ _ _ (Stays-pure false) h

  is_task_in_progress-Kept : (tasks : List Mor) → Kept (is_task_in_progress cloud tasks)
  unfolding is_task_in_progress
  is_task_in_progress-Kept [] = Stays-pure true
  is_task_in_progress-Kept (task ∷ tasks) =
      Stays-bind
        (attempt (request (retrieve task ("info" ∷ [])) (λ log. cloud.task_state log task))) _
        (search stays_rules) λ r. looked_at-Kept _ r (is_task_in_progress-Kept tasks)

  wait_for_tasks_to_finish-Kept : (tasks : List Mor) → Kept (wait_for_tasks_to_finish cloud tasks)
  unfolding wait_for_tasks_to_finish
  wait_for_tasks_to_finish-Kept [] = Stays-pure tt
  wait_for_tasks_to_finish-Kept (task ∷ tasks) =
      Stays-bind _ _ (Stays-note _) λ _. wait_for_tasks_to_finish-Kept tasks

  pub turn_off-Kept : (mo : MoVm) → Kept (turn_off cloud mo)
  unfolding turn_off
  turn_off-Kept mo =
      search (stays_rules, is_task_in_progress-Kept, halt-Kept, wait_for_tasks_to_finish-Kept) depth
        14
