-- ===== src/Gate/Examples.antt =====
-- The gate at concrete commands.
use homedash.Prelude.{◌≡◌, refl, ap, true, ◌||◌, none, some, [], ◌∷◌}
use homedash.Prelude.Text.{fields, has_prefix, cut_prefix, after_last, contains_text, is_space}
use homedash.Gate.{check, check_on, check_segment, check_words, first_reason, strip}
use homedash.Gate.Words.{
  segments, is_fork_bomb, redirects_to_ssh, dev_writes, is_assignment, skip_blanks, split_from,
}
use homedash.Gate.Rules.{
  rules, firewall_rule, access_rule, ssh_config_rule, delete_rule, power_rule, any_path,
  carries_system, device_reason, has, is_disk_tool, is_no_disk, system_device,
}
use homedash.Gate.Separators.{is_refused, runs_refused, semicolon, refused_beside}

pub df_passes : check "df" ≡ none
unfolding check_on check_segment check_words first_reason strip segments is_fork_bomb
    redirects_to_ssh dev_writes is_assignment skip_blanks split_from fields has_prefix cut_prefix
    after_last contains_text is_space rules firewall_rule access_rule ssh_config_rule delete_rule
    power_rule any_path carries_system device_reason has is_disk_tool is_no_disk system_device
df_passes = refl

pub ls_passes : check "ls" ≡ none
unfolding check_on check_segment check_words first_reason strip segments is_fork_bomb
    redirects_to_ssh dev_writes is_assignment skip_blanks split_from fields has_prefix cut_prefix
    after_last contains_text is_space rules firewall_rule access_rule ssh_config_rule delete_rule
    power_rule any_path carries_system device_reason has is_disk_tool is_no_disk system_device
ls_passes = refl

mkfs_refused : runs_refused none "mkfs /dev/sda" ≡ true
unfolding check_on check_segment check_words first_reason strip segments is_fork_bomb
    redirects_to_ssh dev_writes is_assignment skip_blanks split_from fields has_prefix cut_prefix
    after_last contains_text is_space rules firewall_rule access_rule ssh_config_rule delete_rule
    power_rule any_path carries_system device_reason has is_disk_tool is_no_disk system_device
mkfs_refused = refl

-- The word that is written to runs on over a semicolon.
write_before_semicolon : check_on (some ("sda" ∷ [])) "echo x >/dev/sda;true" ≡ none
unfolding check_on check_segment check_words first_reason strip segments is_fork_bomb
    redirects_to_ssh dev_writes is_assignment skip_blanks split_from fields has_prefix cut_prefix
    after_last contains_text is_space rules firewall_rule access_rule ssh_config_rule delete_rule
    power_rule any_path carries_system device_reason has is_disk_tool is_no_disk system_device
write_before_semicolon = refl

-- A single ampersand does not end a command.
background_passes : check "sleep 1 & reboot" ≡ none
unfolding check_on check_segment check_words first_reason strip segments is_fork_bomb
    redirects_to_ssh dev_writes is_assignment skip_blanks split_from fields has_prefix cut_prefix
    after_last contains_text is_space rules firewall_rule access_rule ssh_config_rule delete_rule
    power_rule any_path carries_system device_reason has is_disk_tool is_no_disk system_device
background_passes = refl

refused_beside_example : is_refused (check_on none (semicolon "mkfs /dev/sda" "ls")) ≡ true
refused_beside_example =
    refused_beside none "mkfs /dev/sda" "ls" (ap (λ b. b || runs_refused none "ls") mkfs_refused)
