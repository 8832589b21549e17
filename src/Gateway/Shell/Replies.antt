-- ===== src/Gateway/Shell/Replies.antt =====
-- crates/aegis-gateway/src/shell.rs: the commands of `dispatch_pure` that leave the file system as it
-- is. The arms of the source's `match` are different words, so that their order is free.
use aegis_honeypot.Prelude.{
  ℕ, ◌+◌, ◌-◌, leb, ◌==◌, Bool, false, ◌&&◌, ◌||◌, List, [], ◌∷◌, ◌++◌, Option, none, some,
  if◌then◌else◌, length, is_empty, list_beq, drop, drop_last,
}
use aegis_honeypot.Prelude.Text.{
  Text, codes, newline, trim, split, split_whitespace, starts_with, ends_with, has_char, has_text,
  first_or, last_or, utf8_len, decimal, pad_left, pad_right, strip_prefix,
}
use aegis_honeypot.Gateway.Vfs.{DiskCall, Disk, VirtualFileSystem, pwd}
use aegis_honeypot.Gateway.Vfs.Reading.{cat}
use aegis_honeypot.Gateway.Vfs.Listing.{ls}
use aegis_honeypot.Gateway.Shell.Canned.{
  lines_of, uname, ps_aux, netstat, ss_out, ifconfig, ip_a, lscpu, crontab_l, env_out, last_out,
  df_h, free_h, uptime, w_out,
}
use Prim.Native.String.{String}

-- The disk, and the local time as `date` prints it.
pub record World : Type 0 where
  pub disk : Disk
  pub date : List DiskCall → Text

abbrev pub before : ℕ → Option (Text × Text) → Option (Text × Text)
before c none = none
before c (some (l, r)) = some (c ∷ l, r)

-- What stands before and after the first `c`.
unfoldable pub cut : ℕ → Text → Option (Text × Text)
cut c [] = none
cut c (d ∷ s) = if d == c then some ([], s) else before d (cut c s)

abbrev pub is : Text → String → Bool
is prog name = list_beq prog (codes name)

abbrev one_of : Text → List String → Bool
one_of prog [] = false
one_of prog (n ∷ ns) = is prog n || one_of prog ns

abbrev pub in_quotes : ℕ → Text → Bool
in_quotes q s = starts_with s (q ∷ []) && ends_with s (q ∷ [])

-- The argument of `echo` without its matching quotes.
unfoldable pub unquote : Text → Text
unfolding starts_with ends_with
unquote s =
    if leb 2 (utf8_len s) && (in_quotes 34 s || in_quotes 39 s) then drop 1 (drop_last s) else s

unfoldable pub echo : Text → Text
unfolding unquote trim
echo args = unquote (trim args) ++ newline

abbrev known : List String
known =
    "bash" ∷ "sh" ∷ "python" ∷ "python3" ∷ "perl" ∷ "curl" ∷ "wget" ∷ "tar" ∷ "gzip" ∷ "ls" ∷ "cat"
    ∷ "rm" ∷ "mv" ∷ "cp" ∷ "mkdir" ∷ "touch" ∷ "find" ∷ "grep" ∷ "awk" ∷ "sed" ∷ "chmod" ∷ "chown"
    ∷ "systemctl" ∷ "apt" ∷ "apt-get" ∷ []

abbrev which : Text → Text
which args =
    let name = first_or (split_whitespace (trim args)) [] in
    if one_of name known then codes "/usr/bin/" ++ name ++ newline else []

abbrev status_of : Option Text → Text
status_of none = []
status_of (some rest) =
    let svc = trim rest in
    codes "● "
    ++ svc
    ++ codes ".service - "
    ++ svc
    ++ newline
    ++ lines_of ("   Loaded: loaded" ∷ "   Active: active (running)" ∷ [])

-- `systemctl`: only `status` answers.
abbrev systemctl : Text → Text
systemctl args = status_of (strip_prefix args (codes "status"))

abbrev ping : Text → Text
ping args =
    let host = first_or (split_whitespace args) (codes "host") in
    codes "PING "
    ++ host
    ++ codes " (192.0.2.1) 56(84) bytes of data."
    ++ newline
    ++ codes "64 bytes from "
    ++ host
    ++ codes ": icmp_seq=1 ttl=51 time=11.3 ms"
    ++ newline
    ++ codes "^C"
    ++ newline

abbrev numbered : ℕ → List String → Text
numbered i [] = []
numbered i (e ∷ es) =
    codes "  " ++ pad_right 4 (decimal (i + 1)) ++ codes e ++ newline ++ numbered (i + 1) es

abbrev history : Text
history = numbered 0 (
    "apt-get update" ∷ "systemctl status nginx" ∷ "docker ps" ∷ "cat /etc/hosts" ∷ "ufw status"
    ∷ "ls -la /root" ∷ [])

abbrev python : Text → Text
python args =
    if is_empty args
    then lines_of (
        "Python 3.10.6 (main, Nov 14 2022, 16:10:14) [GCC 11.3.0] on linux"
        ∷ "Type \"help\", \"copyright\", \"credits\" or \"license\" for more information." ∷ [])
      ++ codes ">>> "
    else []

abbrev curl : Text → Text
curl args =
    if is_empty (trim args)
    then lines_of ("curl: try 'curl --help' for more information" ∷ [])
    else if has_text (codes "--help") args || has_text (codes "-h") args
    then lines_of (
        "Usage: curl [options...] <url>"
        ∷ "Use 'curl --help category' to get an overview of all categories." ∷ [])
    else lines_of ("curl: (6) Could not resolve host" ∷ [])

-- `lines().count()`: what follows the last line break is a line unless it is empty.
abbrev count_lines : Text → ℕ
count_lines s = let ls = split 10 s in if is_empty (last_or ls []) then length ls - 1 else length ls

-- The answers that depend on the arguments at most; `none` where the command is another.
abbrev pub canned : Text → Text → Option Text
canned prog args =
    if is prog "echo"
    then some (echo args)
    else if is prog "whoami"
    then some (lines_of ("root" ∷ []))
    else if is prog "id"
    then some (lines_of ("uid=0(root) gid=0(root) groups=0(root)" ∷ []))
    else if is prog "hostname"
    then some (lines_of ("ubuntu-server-01" ∷ []))
    else if is prog "uname"
    then some (
        if has_char 97 args
        then uname
        else if has_char 114 args
        then lines_of ("5.15.0-72-generic" ∷ [])
        else lines_of ("Linux" ∷ []))
    else if is prog "ps"
    then some ps_aux
    else if is prog "netstat"
    then some netstat
    else if is prog "ss"
    then some ss_out
    else if is prog "ifconfig"
    then some ifconfig
    else if is prog "ip"
    then some ip_a
    else if is prog "lscpu"
    then some lscpu
    else if one_of prog ("env" ∷ "printenv" ∷ [])
    then some env_out
    else if is prog "crontab"
    then some (if has_char 108 args then crontab_l else [])
    else if is prog "last"
    then some last_out
    else if is prog "w"
    then some w_out
    else if is prog "who"
    then some (lines_of ("root     pts/0        2026-08-26 22:14 (192.0.2.100)" ∷ []))
    else if is prog "uptime"
    then some uptime
    else if is prog "df"
    then some df_h
    else if is prog "free"
    then some free_h
    else if is prog "history"
    then some history
    else if is prog "clear"
    then some (27 ∷ codes "[2J" ++ 27 ∷ codes "[H")
    else none

abbrev silent : List String
silent =
    "chmod" ∷ "chown" ∷ "chattr" ∷ "lsattr" ∷ "service" ∷ "grep" ∷ "tar" ∷ "gzip" ∷ "gunzip"
    ∷ "unzip" ∷ "zip" ∷ "exit" ∷ "logout" ∷ "xxd" ∷ "cut" ∷ "sort" ∷ "uniq" ∷ "awk" ∷ "sed" ∷ "tr"
    ∷ "tee" ∷ "xargs" ∷ "useradd" ∷ "userdel" ∷ "usermod" ∷ "groupadd" ∷ "su" ∷ "lsof" ∷ "strace"
    ∷ "kill" ∷ "killall" ∷ "pkill" ∷ "mount" ∷ "umount" ∷ []

abbrev pub more_canned : Text → Text → Option Text
more_canned prog args =
    if one_of prog ("python" ∷ "python3" ∷ [])
    then some (python args)
    else if is prog "which"
    then some (which args)
    else if one_of prog silent
    then some []
    else if is prog "systemctl"
    then some (systemctl args)
    else if one_of prog ("apt" ∷ "apt-get" ∷ [])
    then some (
        lines_of (
          "Reading package lists... Done" ∷ "Building dependency tree... Done"
          ∷ "Reading state information... Done" ∷ []))
    else if is prog "find"
    then some (
        if has_text (codes "-name") args && has_text (codes "*.sh") args
        then lines_of ("/root/backup.sh" ∷ "/etc/cron.daily/apt-compat" ∷ [])
        else [])
    else if one_of prog ("scp" ∷ "ssh" ∷ "sftp" ∷ [])
    then some (lines_of ("ssh: connect to host localhost port 22: Connection refused" ∷ []))
    else if is prog "ping"
    then some (ping args)
    else if is prog "nmap"
    then some (
        lines_of (
          "Starting Nmap 7.80 ( https://nmap.org )"
          ∷ "nmap: You requested a scan type which requires root privileges." ∷ []))
    else if is prog "base64"
    then some (lines_of ("SGVsbG8gV29ybGQK" ∷ []))
    else if one_of prog ("nc" ∷ "netcat" ∷ "ncat" ∷ [])
    then some (
        lines_of
          ("nc: getaddrinfo for host \"\" port 0: Servname not supported for ai_socktype" ∷ []))
    else if is prog "curl"
    then some (curl args)
    else if is prog "passwd"
    then some (lines_of ("Changing password for root." ∷ []) ++ codes "New password: ")
    else if is prog "dmesg"
    then some (
        lines_of (
          "[    0.000000] Initializing cgroup subsys cpuset"
          ∷ "[    0.000000] Linux version 5.15.0-72-generic" ∷ []))
    else if is prog "journalctl"
    then some (lines_of ("-- No entries --" ∷ []))
    else none

-- Every other word.
abbrev pub not_found : Text → Text → Text
not_found prog cmd =
    if starts_with cmd (codes "./") || starts_with cmd (codes "/")
    then codes "bash: "
      ++ first_or (split_whitespace cmd) cmd
      ++ codes ": Permission denied"
      ++ newline
    else codes "bash: " ++ prog ++ codes ": command not found" ++ newline

abbrev pub first_reply : Option Text → Option Text → Text → Text
first_reply (some s) o d = s
first_reply none (some s) d = s
first_reply none none d = d

module _ (w : World) where
  abbrev pub wc : Text → VirtualFileSystem → Text
  wc args v =
      let target = last_or (split_whitespace args) [] in
      let content = cat w.disk target v in
      codes " "
      ++ pad_left 7 (decimal (count_lines content))
      ++ codes " "
      ++ pad_left 7 (decimal (length (split_whitespace content)))
      ++ codes " "
      ++ pad_left 7 (decimal (utf8_len content))
      ++ codes " "
      ++ target
      ++ newline

  unfoldable pub reply : Text → Text → Text → VirtualFileSystem → Text
  unfolding ls cat echo split split_whitespace starts_with has_text decimal list_beq trim
  reply prog args cmd v =
      if is prog "pwd"
      then pwd v
      else if is prog "ls"
      then ls w.disk args v
      else if is prog "cat"
      then cat w.disk args v
      else if is prog "date"
      then w.date v.calls ++ newline
      else if is prog "head" || is prog "tail"
      then cat w.disk (last_or (split_whitespace args) []) v
      else if is prog "wc"
      then wc args v
      else first_reply (canned prog args) (more_canned prog args) (not_found prog cmd)
