-- ===== src/Gate/Rules.antt =====
-- hub/internal/gate/gate.go: `rules`, each on a program and its arguments, and `systemDevice`. A
-- reason is given without the quoted command that the code appends.
use Prim.Native.Char.{Char, code}
use Prim.Native.String
use homedash.Prelude.{
  String, Bool, true, false, not, ◌&&◌, ◌||◌, Option, none, some, List, [], ◌∷◌, leb, ◌==◌, str_eq,
  if◌then◌else◌, any,
}
use homedash.Prelude.Text.{cut_prefix, has_prefix, is_empty, contains_text, after_last}

abbrev pub is_one_of : List String → String → Bool
is_one_of names x = any (λ y. str_eq x y) names

-- `has`.
unfoldable pub has : List String → List String → Bool
has xs names = any (is_one_of names) xs

-- `anyPath`.
unfoldable pub any_path : List String → List String → Bool
any_path xs subs = any (λ x. any (contains_text x) subs) xs

abbrev head_is : List String → List String → Bool
head_is [] names = false
head_is (x ∷ xs) names = is_one_of names x

abbrev rest_has : List String → List String → Bool
rest_has [] names = false
rest_has (x ∷ xs) names = any (is_one_of names) xs

join_words : List String → String
join_words [] = ""
join_words (w ∷ []) = w
join_words (w ∷ v ∷ ws) = String.◌++◌ w (String.◌++◌ " " (join_words (v ∷ ws)))

abbrev Rule : Type 0
Rule = String → List String → Option String

abbrev stops : String → List String → List String → Bool
stops p a units =
    str_eq p "systemctl" && head_is a ("stop" ∷ "disable" ∷ "mask" ∷ []) && rest_has a units

abbrev when : Bool → String → Option String
when b why = if b then some why else none

unfoldable pub firewall_rule : Rule
unfolding join_words has
firewall_rule p a =
    when
      ((str_eq p "ufw" && head_is a ("disable" ∷ "reset" ∷ []))
        || (str_eq p "iptables" && has a ("-F" ∷ "--flush" ∷ []))
        || (str_eq p "nft" && str_eq (join_words a) "flush ruleset")
        || stops p a ("ufw" ∷ "firewalld" ∷ "nftables" ∷ []))
      "switching off the firewall"

abbrev accounts : List String
accounts = "homedash" ∷ "homedash-agent" ∷ []

unfoldable pub access_rule : Rule
unfolding has any_path
access_rule p a =
    when
      (stops p a ("ssh" ∷ "sshd" ∷ "ssh.socket" ∷ "ssh.service" ∷ "sshd.service" ∷ [])
        || (is_one_of ("rm" ∷ "mv" ∷ "truncate" ∷ "shred" ∷ []) p
            && any_path a ("/etc/ssh/" ∷ "authorized_keys" ∷ []))
        || (is_one_of ("deluser" ∷ "userdel" ∷ []) p && has a accounts)
        || (str_eq p "passwd" && has a ("-l" ∷ []) && has a accounts)
        || (str_eq p "usermod" && has a ("-L" ∷ []) && has a accounts))
      "cutting the hub's own SSH access"

unfoldable pub ssh_config_rule : Rule
unfolding any_path
ssh_config_rule p a =
    when
      (is_one_of ("sed" ∷ "perl" ∷ "ed" ∷ "python" ∷ "python3" ∷ "tee" ∷ []) p
        && any_path a ("/etc/ssh/" ∷ []))
      "editing SSH config by hand"

abbrev system_paths : List String
system_paths =
    "/" ∷ "/*" ∷ "/etc" ∷ "/etc/*" ∷ "/usr" ∷ "/usr/*" ∷ "/var" ∷ "/var/*" ∷ "/boot" ∷ "/lib"
    ∷ "/lib64" ∷ "/bin" ∷ "/sbin" ∷ "/home" ∷ "/home/*" ∷ "/root" ∷ "/dev" ∷ "/proc" ∷ "/sys"
    ∷ "/opt" ∷ "/srv" ∷ []

-- `strings.TrimSuffix(x, "/")`.
without_slash : String → String
without_slash String.[] = ""
without_slash (String.◌∷◌ c s) =
    let rest = without_slash s in if code c == 47 && is_empty s then "" else String.◌∷◌ c rest

has_r : String → Bool
has_r String.[] = false
has_r (String.◌∷◌ ch s) = let c = code ch in c == 114 || c == 82 || has_r s

abbrev is_recursive : String → Bool
is_recursive x = str_eq x "--recursive" || (has_prefix x "-" && not (has_prefix x "--") && has_r x)

abbrev is_system_path : String → Bool
is_system_path x = is_one_of system_paths (without_slash x) || is_one_of system_paths x

unfoldable pub delete_rule : Rule
unfolding without_slash has_r
delete_rule p a =
    when (str_eq p "rm" && any is_recursive a && any is_system_path a) "deleting a system path"

unfoldable pub power_rule : Rule
unfolding has
power_rule p a =
    when
      (is_one_of ("shutdown" ∷ "poweroff" ∷ "halt" ∷ "reboot" ∷ []) p
        || (str_eq p "init" && has a ("0" ∷ "6" ∷ []))
        || (str_eq p "systemctl" && has a ("poweroff" ∷ "halt" ∷ "reboot" ∷ "kexec" ∷ [])))
      "shutting down or rebooting a machine"

abbrev pub or_else : Option String → Option String → Option String
or_else none other = other
or_else (some why) other = some why

-- The first rule that speaks.
unfoldable pub rules : Rule
rules p a = or_else (firewall_rule p a) (
    or_else (access_rule p a)
      (or_else (ssh_config_rule p a) (or_else (delete_rule p a) (power_rule p a))))

-- `diskTools`, and `mkfs` with what follows it.
unfoldable pub is_disk_tool : String → Bool
is_disk_tool p =
    is_one_of
      ("fdisk" ∷ "sfdisk" ∷ "parted" ∷ "gdisk" ∷ "sgdisk" ∷ "cfdisk" ∷ "wipefs" ∷ "mkswap" ∷ "dd"
        ∷ "tune2fs" ∷ "resize2fs" ∷ "mdadm" ∷ "pvcreate" ∷ "vgcreate" ∷ "lvcreate" ∷ "pvremove"
        ∷ "vgremove" ∷ "lvremove" ∷ "cryptsetup" ∷ [])
      p
    || has_prefix p "mkfs"

abbrev pseudo_devices : List String
pseudo_devices =
    "/dev/null" ∷ "/dev/zero" ∷ "/dev/random" ∷ "/dev/urandom" ∷ "/dev/stdin" ∷ "/dev/stdout"
    ∷ "/dev/stderr" ∷ "/dev/tty" ∷ []

abbrev is_quote : Char → Bool
is_quote ch = let c = code ch in c == 34 || c == 39

trim_left_quotes : String → String
trim_left_quotes String.[] = ""
trim_left_quotes (String.◌∷◌ c s) =
    let rest = trim_left_quotes s in if is_quote c then rest else String.◌∷◌ c s

trim_right_quotes : String → String
trim_right_quotes String.[] = ""
trim_right_quotes (String.◌∷◌ c s) =
    let rest = trim_right_quotes s in if is_empty rest && is_quote c then "" else String.◌∷◌ c rest

-- What follows the last `=`, if that begins with a slash.
abbrev value_of : String → String
value_of w = elim (after_last w "=") [ none ↦ w | some v ↦ if has_prefix v "/" then v else w ]

abbrev or_whole : String → Option String → String
or_whole w none = w
or_whole w (some rest) = rest

all_digits : String → Bool
all_digits String.[] = true
all_digits (String.◌∷◌ ch s) = let c = code ch in leb 48 c && leb c 57 && all_digits s

-- A partition of the device, `1` or `p1` after its name.
abbrev is_partition : Option String → Bool
is_partition none = false
is_partition (some rest) =
    let number = or_whole rest (cut_prefix rest "p") in not (is_empty number) && all_digits number

abbrev base_name : String → String
base_name s = or_whole s (after_last s "/")

unfoldable pub carries_system : String → List String → Bool
unfolding all_digits
carries_system name system =
    any (λ s. str_eq name (base_name s) || is_partition (cut_prefix name (base_name s))) system

abbrev kernel_name : String → String
kernel_name w =
    let name = or_whole w (cut_prefix w "/dev/mapper/") in or_whole name (cut_prefix name "/dev/")

-- The words that are not refused on any machine.
unfoldable pub is_no_disk : String → Bool
is_no_disk w = not (has_prefix w "/dev/") || is_one_of pseudo_devices w || has_prefix w "/dev/fd/"

unfoldable pub device_reason : String → Option (List String) → Option String
device_reason w none =
    some
      "repartitioning or wiping the system disk (this remote has not reported which disk carries its system)"
device_reason w (some system) =
    if contains_text (kernel_name w) "/"
    then some "repartitioning or wiping the system disk (name the device by its kernel name)"
    else when (carries_system (kernel_name w) system) "repartitioning or wiping the system disk"

unfoldable pub system_device : String → Option (List String) → Option String
unfolding trim_left_quotes trim_right_quotes is_no_disk device_reason
system_device word system =
    let w = trim_right_quotes (trim_left_quotes word) in
    if has_prefix w "if="
    then none
    else if is_no_disk (value_of w)
    then none
    else device_reason (value_of w) system
