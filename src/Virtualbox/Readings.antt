-- ===== src/Virtualbox/Readings.antt =====
-- virtualmachine/virtualbox: what the methods read from the output of VBoxManage. A match of a
-- regular expression is written out with the functions on texts.
use Prim.Native.String.{len}
use text.Mathlib.Text.{starts_with}
use libretto.Base.{
  ℕ, suc, zero, String, not, ◌&&◌, Option, none, some, List, [], ◌∷◌, ◌==◌, ◌<>◌, ltb,
  if◌then◌else◌,
}
use libretto.Go.Error.{new}
use libretto.Go.Result.{Result, ok, err, ◌>>=◌, deref}
use libretto.Machine.{vm_running, vm_halted}
use libretto.Go.Strings.{
  contains, has_suffix, trim_prefix, trim_suffix, trim_space, split, lines, before, after, digits,
  atoi,
}
use libretto.Virtualbox.Types.{Nic, Backing, nat, unsupported, disabled}

-- GetState: the first line that begins with State: decides.
unfoldable pub read_state : List String → Option String
unfolding contains
read_state [] = none
read_state (line ∷ rest) =
    let later = read_state rest in
    if starts_with line "State:"
    then some (if contains line "running" then vm_running else vm_halted)
    else later

-- The entry of a list that an index names, counted from 0; out of range it panics.
abbrev pub second : List String → Option String
second [] = none
second (a ∷ []) = none
second (a ∷ b ∷ rest) = some b

-- The match of `^NIC \d\d?:`.
unfoldable pub nic_match : String → Option String
unfolding digits
nic_match line =
    let number = digits (trim_prefix line "NIC ") in
    let front = "NIC " <> number <> ":" in
    if starts_with line front && not (number == "") && ltb (len number) 3 then some front else none

-- The index in the match: what strconv.Atoi makes of the text between the blank and the colon.
unfoldable pub nic_index : String → Result ℕ
unfolding split trim_suffix atoi
nic_index found = do
  piece ← deref (second (split 32 found))
  let number = trim_suffix piece ":"
  elim (atoi number) [
    | some n ↦ ok n
    | none ↦ err (new ("strconv.Atoi: parsing \"" <> number <> "\": invalid syntax"))
  ]

unfoldable pub nic_backing : String → Backing
unfolding contains has_suffix
nic_backing line =
    if contains line "Attachment: NAT"
    then nat
    else if has_suffix line "disabled"
    then disabled
    else unsupported

-- GetInterfaces, from the lines on.
unfoldable pub read_nics : List String → Result (List Nic)
unfolding nic_match nic_index nic_backing
read_nics [] = ok []
read_nics (line ∷ rest) =
    let later = read_nics rest in
    elim (nic_match line) [
      | none ↦ later
      | some found ↦ nic_index found >>= λ idx. later >>= λ nics.
          ok (record { idx = idx; backing = nic_backing line; backing_device = "" } ∷ nics)
    ]

-- The matches of `(?s)Name:.*?VBoxNetworkName`; each is longer than one byte, so the length of the
-- text is fuel enough.
unfoldable pub matches : ℕ → String → List String
unfolding after before
matches zero text = []
matches (suc fuel) text = elim (after text "Name:") [
  | none ↦ []
  | some body ↦ elim (before body "VBoxNetworkName") [
    | none ↦ []
    | some inner ↦ elim (after body "VBoxNetworkName") [
      | none ↦ []
      | some rest ↦ ("Name:" <> inner <> "VBoxNetworkName") ∷ matches fuel rest
    ]
  ]
]

abbrev pub devices : String → List String
devices stdout = matches (len stdout) stdout

-- What a line says behind a label.
unfoldable pub labelled : String → String → String
unfolding trim_prefix trim_space
labelled label line = trim_space (trim_prefix line label)

-- getBridgedDeviceKV: the loop on the lines of a device, with kv.k and kv.v so far.
unfoldable pub scan_pair :
    String → String → String → String → List String → Option (String × String)
unfolding contains labelled
scan_pair keyid propid k v [] = none
scan_pair keyid propid k v (line ∷ rest) =
    let is_key = contains line keyid in
    let k' = if is_key then labelled keyid line else k in
    let v' = if not is_key && contains line propid then labelled propid line else v in
    let later = scan_pair keyid propid k' v' rest in
    if not (k' == "") && not (v' == "") then some (k', v') else later

unfoldable pub scan_pairs : String → String → List String → List (String × String)
unfolding scan_pair
scan_pairs keyid propid [] = []
scan_pairs keyid propid (device ∷ rest) =
    let later = scan_pairs keyid propid rest in
    elim (scan_pair keyid propid "" "" (lines device)) [ none ↦ later | some kv ↦ kv ∷ later ]

-- GetBridgedDeviceName: mac and name after the lines of a device.
unfoldable pub mac_and_name : String → String → List String → String × String
unfolding contains labelled
mac_and_name mac name [] = (mac, name)
mac_and_name mac name (line ∷ rest) =
    mac_and_name (if contains line "HardwareAddress" then labelled "HardwareAddress:" line else mac)
      (if contains line "Name:" then labelled "Name:" line else name) rest

unfoldable pub name_of_mac : String → List String → String
unfolding mac_and_name contains
name_of_mac mac_addr [] = ""
name_of_mac mac_addr (device ∷ rest) =
    let later = name_of_mac mac_addr rest in
    let found = mac_and_name "" "" (lines device) in
    if contains mac_addr found.0 then found.1 else later
