-- ===== src/Vsphere/Search.antt =====
-- virtualmachine/vsphere/util.go: searchTree, searchVmByUuid, findVM and Exists. Where the switch of
-- searchTree ends with `break`, the loop over the children goes on, with the next name of the path.
pub mod Ends
use libretto.Base.{
  ◌≡◌, ℕ, zero, suc, String, Bool, true, false, Option, none, some, List, [], ◌∷◌, ◌==◌,
  if◌then◌else◌, length,
}
use libretto.Go.Error.{Error, new, object_not_found}
use libretto.Go.Result.{err, panic, Reply, answer, failure, of_reply, deref}
use libretto.Go.Action.{◌>>=◌, ◌>>◌, pure, fail, lift, attempt, request}
use libretto.Vsphere.Types.{Mor, VmSearchFilter}
use libretto.Vsphere.Paths.{split_path_to_list}
use libretto.Vsphere.Api.{Cloud, Method, retrieve, find_by_uuid, MoVm}
use libretto.Vsphere.Session.{get_datacenter, is_object_deleted, answer_question_of}

-- The locals of searchTree: the folder found, pathList[iPathList], and the names behind it.
pub record Position : Type 0 where
  pub ref : Option Mor
  pub name : String
  pub more : List String

-- A child of a folder: the machine that is looked for, or the locals for the next child.
pub data Visit : Type 0 where
  machine : MoVm → Visit
  next : Position → Visit

abbrev pub could_not_find : String → Error
could_not_find name = object_not_found (new "could not find the vm") name

module _ {F : Type 0} (cloud : Cloud F) where
  -- `if isObjectDeleted(err) { continue }`, and the error.
  abbrev pub skip_deleted : {A : Type 0} → A → Error → Method F A
  skip_deleted a e = do
    deleted ← lift (is_object_deleted cloud e)
    if deleted then pure a else fail e

  abbrev pub entered : Mor → Position → String → List String → String → Visit
  entered child p name more found =
      if found == p.name
      then next (record { ref = some child; name = name; more = more })
      else next p

  abbrev pub folder_named : Mor → Position → String → List String → Reply String → Method F Visit
  folder_named child p name more (failure e) = skip_deleted (next p) e
  folder_named child p name more (answer escaped) = do
    found ← lift (of_reply (cloud.unescape escaped))
    pure (entered child p name more found)

  -- `case "Folder"`: the last name of a path is no folder's.
  abbrev pub visit_folder : Mor → Position → List String → Method F Visit
  visit_folder child p [] = pure (next p)
  visit_folder child p (name ∷ more) = do
    reply ← attempt (request (retrieve child ("name" ∷ [])) (λ log. cloud.name_of log child))
    folder_named child p name more reply

  abbrev pub vm_properties : List String
  vm_properties =
      "name" ∷ "config" ∷ "datastore" ∷ "guest" ∷ "snapshot.currentSnapshot" ∷ "summary" ∷ "runtime"
      ∷ "resourcePool" ∷ []

  abbrev pub checked : MoVm → Position → String → Visit
  checked mo p found = if found == p.name then machine mo else next p

  abbrev pub vm_named : Position → Reply MoVm → Method F Visit
  vm_named p (failure e) = skip_deleted (next p) e
  vm_named p (answer mo) = do
    found ← lift (of_reply (cloud.unescape mo.name))
    pure (checked mo p found)

  -- `case "VirtualMachine"`: only the last name of a path is a machine's.
  abbrev pub visit_vm : Mor → Position → List String → Method F Visit
  visit_vm child p (name ∷ more) = pure (next p)
  visit_vm child p [] = do
    reply ←
        attempt
          (request (retrieve child vm_properties) (λ log. cloud.vm_of log child vm_properties))
    vm_named p reply

  unfoldable pub visit : Mor → Position → Method F Visit
  unfolding is_object_deleted
  visit child p =
      if child.type == "Folder"
      then visit_folder child p p.more
      else (if child.type == "VirtualMachine" then visit_vm child p p.more else pure (next p))

  abbrev pub go_on : (Position → Method F Visit) → Visit → Method F Visit
  go_on rest (machine mo) = pure (machine mo)
  go_on rest (next p) = rest p

  -- `for _, child := range folderMo.ChildEntity`.
  unfoldable pub visit_children : List Mor → Position → Method F Visit
  unfolding visit
  visit_children [] p = pure (next p)
  visit_children (child ∷ children) p = do v ← visit child p; go_on (visit_children children) v

  abbrev pub enter :
      String
      → (Mor → String → List String → Method F (Option MoVm))
      → Position
      → Option Mor
      → Method F (Option MoVm)
  enter path rest p none = fail (could_not_find path)
  enter path rest p (some mor) = rest mor p.name p.more

  abbrev pub descend :
      String
      → (Mor → String → List String → Method F (Option MoVm))
      → Visit
      → Method F (Option MoVm)
  descend path rest (machine mo) = pure (some mo)
  descend path rest (next p) = enter path rest p p.ref

  abbrev pub ask_children : Mor → Method F (List Mor)
  ask_children mor = request (retrieve mor ("childEntity" ∷ [])) (λ log. cloud.children_of log mor)

  -- `for mor != nil`, with `n` rounds left; none where they do not suffice.
  unfoldable pub search_folders : ℕ → String → Mor → String → List String → Method F (Option MoVm)
  unfolding visit_children
  search_folders zero path mor name more = pure none
  search_folders (suc n) path mor name more = do
    children ← ask_children mor
    v ← visit_children children (record { ref = none; name = name; more = more })
    descend path (search_folders n path) v

  abbrev pub from_list : String → Mor → List String → Method F (Option MoVm)
  from_list path mor [] = lift panic
  from_list path mor (name ∷ more) = search_folders (suc (length more)) path mor name more

  -- A round for each name is enough. splitPathToList returns no empty list.
  unfoldable pub search_tree : Mor → String → Method F MoVm
  unfolding search_folders split_path_to_list
  search_tree mor path = do found ← from_list path mor (split_path_to_list path); lift (deref found)

  abbrev pub within_dc : Bool → Method F (Option Mor)
  within_dc true = do dc ← get_datacenter cloud; pure (some dc.self)
  within_dc false = pure none

  abbrev pub uuid_properties : List String
  uuid_properties = "name" ∷ "config" ∷ "runtime" ∷ "summary" ∷ "guest" ∷ "resourcePool" ∷ []

  abbrev pub retrieved : String → Option Mor → Method F MoVm
  retrieved uuid none = fail (object_not_found (new "Invalid object with uuid found") uuid)
  retrieved uuid (some mor) =
      request (retrieve mor uuid_properties) (λ log. cloud.vm_of log mor uuid_properties)

  unfoldable pub search_vm_by_uuid : VmSearchFilter → Method F MoVm
  unfolding get_datacenter
  search_vm_by_uuid filter = do
    dc ← within_dc filter.search_in_dc
    found ←
        request (find_by_uuid dc filter.instance_uuid)
          (λ log. cloud.by_uuid log dc filter.instance_uuid)
    retrieved filter.instance_uuid found

  abbrev pub by_name : String → Method F MoVm
  by_name path = do dc ← get_datacenter cloud; search_tree dc.vm_folder path

  unfoldable pub find_vm : VmSearchFilter → Method F MoVm
  unfolding search_vm_by_uuid search_tree get_datacenter answer_question_of
  find_vm filter = do
    mo ← (if filter.instance_uuid == "" then by_name filter.name else search_vm_by_uuid filter)
    answer_question_of cloud mo
    pure mo

  abbrev pub is_there : Reply MoVm → Method F Bool
  is_there (answer mo) = pure true
  is_there (failure (object_not_found e name)) = pure false
  is_there (failure e) = fail e

  unfoldable pub exists_vm : VmSearchFilter → Method F Bool
  unfolding find_vm
  exists_vm filter = do reply ← attempt (find_vm filter); is_there reply
