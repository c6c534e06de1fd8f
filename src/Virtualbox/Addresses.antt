-- ===== src/Virtualbox/Addresses.antt =====
-- virtualmachine/virtualbox/util.go: what requestIPs reads from the guest properties, and the test
-- of waitUntilReady on the timestamps.
use libretto.Base.{
  String, Bool, true, false, Option, none, some, List, [], ◌∷◌, ◌==◌, ◌<>◌, not, lookup,
  if◌then◌else◌,
}
use libretto.Ssh.{Ip}
use libretto.Go.Strings.{contains, trim_suffix, trim_space, split, before_last, after, digits}
use libretto.Virtualbox.Readings.{second}

abbrev pub Timestamps : Type 0
Timestamps = List (String × String)

-- `m[k] = v`.
unfoldable pub put_at : String → String → Timestamps → Timestamps
put_at k v [] = (k, v) ∷ []
put_at k v ((j, u) ∷ m) = if j == k then (k, v) ∷ m else (j, u) ∷ put_at k v m

-- The match of `value: .*, timestamp` in a line.
unfoldable pub value_match : String → Option String
unfolding after before_last
value_match line = elim (after line "value: ") [
  | none ↦ none
  | some rest ↦ elim (before_last rest ", timestamp") [
    | none ↦ none
    | some value ↦ some ("value: " <> value <> ", timestamp")
  ]
]

-- The match of `timestamp: \d*` in a line.
unfoldable pub timestamp_match : String → Option String
unfolding after digits
timestamp_match line = elim (after line "timestamp: ") [
  | none ↦ none
  | some rest ↦ some ("timestamp: " <> digits rest)
]

-- ipString of a match; a match has a colon.
unfoldable pub address_text : String → String
unfolding split trim_space trim_suffix
address_text found = elim (second (split 58 found)) [
  | none ↦ ""
  | some piece ↦ trim_suffix (trim_space piece) ", timestamp"
]

-- The text of the address in a line, where the line has one.
unfoldable pub address_line : String → Option String
unfolding contains value_match address_text
address_line line =
    if contains line "/VirtualBox/GuestInfo/Net/0/V4/IP"
    then elim (value_match line) [ none ↦ none | some found ↦ some (address_text found) ]
    else none

-- `vm.ipUpdate[ipString] = match[0]`, where the line has a timestamp.
unfoldable pub noted : String → Option String → Timestamps → Timestamps
unfolding put_at
noted text none m = m
noted text (some stamp) m = put_at text stamp m

-- The loop of requestIPs: the addresses, and vm.ipUpdate after it.
unfoldable pub read_ips : (String → Ip) → List String → Timestamps → List Ip × Timestamps
unfolding address_line timestamp_match noted
read_ips parse [] m = ([], m)
read_ips parse (line ∷ rest) m =
    let unread = read_ips parse rest m in
    elim (address_line line) [
      | none ↦ unread
      | some text ↦ elim (parse text) [
        | none ↦ unread
        | some bytes ↦
            let later = read_ips parse rest (noted text (timestamp_match line) m) in
            (some bytes ∷ later.0, later.1)
      ]
    ]

-- The loop on vm.ipUpdate in waitUntilReady: a key is new, or has another value than before.
unfoldable pub changed : Timestamps → Timestamps → Bool
changed old [] = false
changed old ((k, v) ∷ m) =
    let later = changed old m in
    elim (lookup k old) [ none ↦ true | some before ↦ if not (before == v) then true else later ]
