-- ===== src/Traffic/Examples.antt =====
-- Tests of the tracker, and the theorems at concrete inputs.
use ssh_rocket.Base.{ℕ, ◌≡◌, refl, List, [], ◌∷◌, map, none, some}
use ssh_rocket.Net.Parse.{parse_radix}
use ssh_rocket.System.Apps.{file_name}
use ssh_rocket.FilePath.{path_names}
use ssh_rocket.Text.{
  Text, codes, lines, split, split_once, str_eq, starts_with, ends_with, strip_prefix,
  is_whitespace, to_ascii_lowercase,
}
use ssh_rocket.Traffic.{
  behind_first, process_name, find_entry, insert_entry, add_entry, classify, count_type,
  count_delta, read_counters, sum_fields, read_line, read_lines, sum_ss_counter, AppTrafficTracker,
  clear,
}
use ssh_rocket.Traffic.Stats.{
  forget_unseen, primary_type, shown, app_stat, active_conn, insert_by, sort_by, Sample, report,
  DesktopApp, sample,
}
use ssh_rocket.Traffic.Split.{IsSplit, sample_all, sample_all-IsSplit}
use ssh_rocket.Traffic.Order.{IsOrdered, sample-IsOrdered}

summed :
    sum_ss_counter
      (codes " cubic bytes_sent:12 bytes_acked:3 bytes_sent:30 bytes_sent:x")
      (codes "bytes_sent:")
    ≡ 42
unfolding sum_ss_counter sum_fields parse_radix split is_whitespace strip_prefix
summed = refl

abbrev output : Text
output =
    codes
      "ESTAB 0 0 127.0.0.1:40000 127.0.0.1:1080 users:((\"curl\",pid=7,fd=3))\n\t cubic bytes_sent:100 bytes_received:900\nESTAB 0 0 10.0.0.2:50000 93.184.216.34:443 users:((\"curl\",pid=7,fd=4))\n\t cubic bytes_sent:5 bytes_received:10\n"

abbrev apps : List DesktopApp
apps =
    record { name = codes "cURL"; executable = codes "/usr/bin/curl"; icon = codes "curl-icon" }
    ∷ []

abbrev empty : AppTrafficTracker
empty = clear (record {
  active_sockets = [];
  app_traffic = [];
  app_proxy_traffic = [];
  app_direct_traffic = [];
  app_local_traffic = [];
})

-- The second sample finds the same counters and adds nothing.
twice :
    (sample_all apps (codes "1080") (some output ∷ some output ∷ []) empty).app_traffic
    ≡ (codes "curl", (105, 910)) ∷ []
unfolding clear sample read_lines read_line read_counters count_delta count_type classify add_entry
    insert_entry find_entry forget_unseen process_name behind_first sum_ss_counter sum_fields
    parse_radix split split_once is_whitespace strip_prefix starts_with ends_with str_eq lines
twice = refl

sample_all-IsSplit_example :
    IsSplit (sample_all apps (codes "1080") (some output ∷ none ∷ some output ∷ []) (clear empty))
sample_all-IsSplit_example =
    sample_all-IsSplit apps (codes "1080") (some output ∷ none ∷ some output ∷ []) empty

sample-IsOrdered_example : IsOrdered (sample apps (codes "1080") (some output) empty).1
sample-IsOrdered_example = sample-IsOrdered apps (codes "1080") (some output) empty

abbrev names_of : Sample → List (Text × ℕ)
names_of none = []
names_of (some (stats, conns)) = map (λ c. (c.proc_name, c.upload)) conns

listed :
    names_of (sample apps (codes "1080") (some output) empty).1
    ≡ (codes "cURL", 100) ∷ (codes "cURL", 5) ∷ []
unfolding clear sample report sort_by insert_by active_conn app_stat shown primary_type file_name
    path_names to_ascii_lowercase read_lines read_line read_counters count_delta count_type classify
    add_entry insert_entry find_entry forget_unseen process_name behind_first sum_ss_counter
    sum_fields parse_radix split split_once is_whitespace strip_prefix starts_with ends_with str_eq
    lines
listed = refl
