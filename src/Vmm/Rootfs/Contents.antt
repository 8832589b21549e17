-- ===== src/Vmm/Rootfs/Contents.antt =====
-- crates/aegis-vmm/src/rootfs.rs: the directories and the files of the golden root file system. In the
-- source each line of a content but the first follows a `\` at the end of the line before, which drops
-- its leading white space.
use aegis_honeypot.Prelude.{ℕ, List, [], ◌∷◌, ◌++◌, map}
use aegis_honeypot.Prelude.Text.{Text, codes}
use Prim.Native.String.{String}

-- Lines with their ends.
abbrev lines : List String → Text
lines [] = []
lines (l ∷ ls) = codes l ++ 10 ∷ lines ls

-- A file that is written: its path below the root, its content and its mode.
pub record File : Type 0 where
  pub path : Text
  pub content : Text
  pub mode : ℕ

abbrev pub dirs : List Text
dirs = map codes (
    "bin" ∷ "boot" ∷ "boot/grub" ∷ "dev" ∷ "dev/pts" ∷ "dev/shm" ∷ "etc" ∷ "etc/ssh" ∷ "etc/network"
    ∷ "etc/cron.d" ∷ "etc/cron.daily" ∷ "etc/cron.hourly" ∷ "etc/cron.weekly" ∷ "etc/cron.monthly"
    ∷ "etc/systemd" ∷ "etc/systemd/system" ∷ "etc/pam.d" ∷ "etc/security" ∷ "etc/default"
    ∷ "etc/apt" ∷ "etc/apt/sources.list.d" ∷ "home" ∷ "home/ubuntu" ∷ "home/ubuntu/.ssh"
    ∷ "home/ubuntu/projects" ∷ "lib" ∷ "lib64" ∷ "media" ∷ "mnt" ∷ "opt" ∷ "proc" ∷ "proc/net"
    ∷ "proc/sys/kernel" ∷ "root" ∷ "root/.ssh" ∷ "run" ∷ "run/sshd" ∷ "run/systemd" ∷ "run/user"
    ∷ "sbin" ∷ "srv" ∷ "sys" ∷ "sys/class" ∷ "sys/devices" ∷ "sys/fs/cgroup" ∷ "tmp" ∷ "usr"
    ∷ "usr/bin" ∷ "usr/sbin" ∷ "usr/lib" ∷ "usr/lib64" ∷ "usr/local" ∷ "usr/local/bin"
    ∷ "usr/local/sbin" ∷ "usr/share" ∷ "usr/include" ∷ "var" ∷ "var/backups" ∷ "var/cache"
    ∷ "var/cache/apt" ∷ "var/cache/apt/archives" ∷ "var/lib" ∷ "var/lib/dpkg" ∷ "var/lib/systemd"
    ∷ "var/local" ∷ "var/lock" ∷ "var/log" ∷ "var/log/nginx" ∷ "var/log/journal" ∷ "var/mail"
    ∷ "var/opt" ∷ "var/run" ∷ "var/spool" ∷ "var/spool/cron" ∷ "var/spool/cron/crontabs" ∷ "var/tmp"
    ∷ "var/www" ∷ "var/www/html" ∷ [])

abbrev etc_passwd_file : File
etc_passwd_file = record {
  path = codes "etc/passwd";
  content = lines (
      "root:x:0:0:root:/root:/bin/bash" ∷ "daemon:x:1:1:daemon:/usr/sbin:/usr/sbin/nologin"
      ∷ "bin:x:2:2:bin:/bin:/usr/sbin/nologin" ∷ "sys:x:3:3:sys:/dev:/usr/sbin/nologin"
      ∷ "sync:x:4:65534:sync:/bin:/bin/sync" ∷ "games:x:5:60:games:/usr/games:/usr/sbin/nologin"
      ∷ "man:x:6:12:man:/var/cache/man:/usr/sbin/nologin"
      ∷ "lp:x:7:7:lp:/var/spool/lpd:/usr/sbin/nologin"
      ∷ "mail:x:8:8:mail:/var/mail:/usr/sbin/nologin"
      ∷ "news:x:9:9:news:/var/spool/news:/usr/sbin/nologin"
      ∷ "uucp:x:10:10:uucp:/var/spool/uucp:/usr/sbin/nologin"
      ∷ "proxy:x:13:13:proxy:/bin:/usr/sbin/nologin"
      ∷ "www-data:x:33:33:www-data:/var/www:/usr/sbin/nologin"
      ∷ "backup:x:34:34:backup:/var/backups:/usr/sbin/nologin"
      ∷ "list:x:38:38:Mailing List Manager:/var/list:/usr/sbin/nologin"
      ∷ "nobody:x:65534:65534:nobody:/nonexistent:/usr/sbin/nologin"
      ∷ "systemd-network:x:100:102:systemd Network Management,,,:/run/systemd:/usr/sbin/nologin"
      ∷ "systemd-resolve:x:101:103:systemd Resolver,,,:/run/systemd:/usr/sbin/nologin"
      ∷ "messagebus:x:102:105::/nonexistent:/usr/sbin/nologin"
      ∷ "systemd-timesync:x:103:106:systemd Time Synchronization,,,:/run/systemd:/usr/sbin/nologin"
      ∷ "syslog:x:104:110::/home/syslog:/usr/sbin/nologin"
      ∷ "_apt:x:105:65534::/nonexistent:/usr/sbin/nologin"
      ∷ "sshd:x:106:65534::/run/sshd:/usr/sbin/nologin"
      ∷ "ubuntu:x:1000:1000:Ubuntu:/home/ubuntu:/bin/bash" ∷ []);
  mode = 420;
}

abbrev etc_shadow_file : File
etc_shadow_file = record {
  path = codes "etc/shadow";
  content = lines (
      "root:$6$rounds=4096$Fk9mS...$rO2u.F88z1Ff9a2b8...:19400:0:99999:7:::"
      ∷ "daemon:*:19400:0:99999:7:::" ∷ "bin:*:19400:0:99999:7:::" ∷ "sys:*:19400:0:99999:7:::"
      ∷ "sync:*:19400:0:99999:7:::" ∷ "games:*:19400:0:99999:7:::" ∷ "man:*:19400:0:99999:7:::"
      ∷ "lp:*:19400:0:99999:7:::" ∷ "mail:*:19400:0:99999:7:::" ∷ "news:*:19400:0:99999:7:::"
      ∷ "uucp:*:19400:0:99999:7:::" ∷ "proxy:*:19400:0:99999:7:::" ∷ "www-data:*:19400:0:99999:7:::"
      ∷ "backup:*:19400:0:99999:7:::" ∷ "list:*:19400:0:99999:7:::" ∷ "nobody:*:19400:0:99999:7:::"
      ∷ "systemd-network:*:19400:0:99999:7:::" ∷ "systemd-resolve:*:19400:0:99999:7:::"
      ∷ "messagebus:*:19400:0:99999:7:::" ∷ "systemd-timesync:*:19400:0:99999:7:::"
      ∷ "syslog:*:19400:0:99999:7:::" ∷ "_apt:*:19400:0:99999:7:::" ∷ "sshd:*:19400:0:99999:7:::"
      ∷ "ubuntu:$6$v8L9Pq1...$Xn8kL0...:19400:0:99999:7:::" ∷ []);
  mode = 416;
}

abbrev etc_group_file : File
etc_group_file = record {
  path = codes "etc/group";
  content = lines (
      "root:x:0:" ∷ "daemon:x:1:" ∷ "bin:x:2:" ∷ "sys:x:3:" ∷ "adm:x:4:syslog,ubuntu" ∷ "tty:x:5:"
      ∷ "disk:x:6:" ∷ "lp:x:7:" ∷ "mail:x:8:" ∷ "news:x:9:" ∷ "uucp:x:10:" ∷ "man:x:12:"
      ∷ "proxy:x:13:" ∷ "kmem:x:15:" ∷ "dialout:x:20:ubuntu" ∷ "fax:x:21:" ∷ "voice:x:22:"
      ∷ "cdrom:x:24:ubuntu" ∷ "floppy:x:25:" ∷ "tape:x:26:" ∷ "sudo:x:27:ubuntu"
      ∷ "audio:x:29:ubuntu" ∷ "dip:x:30:ubuntu" ∷ "www-data:x:33:" ∷ "backup:x:34:"
      ∷ "operator:x:37:" ∷ "src:x:40:" ∷ "shadow:x:42:" ∷ "utmp:x:43:" ∷ "video:x:44:ubuntu"
      ∷ "sasl:x:45:" ∷ "plugdev:x:46:ubuntu" ∷ "staff:x:50:" ∷ "games:x:60:" ∷ "users:x:100:"
      ∷ "nogroup:x:65534:" ∷ "ubuntu:x:1000:" ∷ []);
  mode = 420;
}

abbrev etc_hosts_file : File
etc_hosts_file = record {
  path = codes "etc/hosts";
  content = lines (
      "127.0.0.1 localhost" ∷ "127.0.1.1 ubuntu-server-01" ∷ ""
      ∷ "# The following lines are desirable for IPv6 capable hosts"
      ∷ "::1 ip6-localhost ip6-loopback" ∷ "fe00::0 ip6-localnet" ∷ "ff00::0 ip6-mcastprefix"
      ∷ "ff02::1 ip6-allnodes" ∷ "ff02::2 ip6-allrouters" ∷ []);
  mode = 420;
}

abbrev etc_hostname_file : File
etc_hostname_file = record {
  path = codes "etc/hostname";
  content = lines ("ubuntu-server-01" ∷ []);
  mode = 420;
}

abbrev etc_os_release_file : File
etc_os_release_file = record {
  path = codes "etc/os-release";
  content = lines (
      "PRETTY_NAME=\"Ubuntu 22.04.2 LTS\"" ∷ "NAME=\"Ubuntu\"" ∷ "VERSION_ID=\"22.04\""
      ∷ "VERSION=\"22.04.2 LTS (Jammy Jellyfish)\"" ∷ "VERSION_CODENAME=jammy" ∷ "ID=ubuntu"
      ∷ "ID_LIKE=debian" ∷ "HOME_URL=\"https://www.ubuntu.com/\""
      ∷ "SUPPORT_URL=\"https://help.ubuntu.com/\""
      ∷ "BUG_REPORT_URL=\"https://bugs.launchpad.net/ubuntu/\""
      ∷ "PRIVACY_POLICY_URL=\"https://www.ubuntu.com/legal/terms-and-policies/privacy-policy\""
      ∷ "UBUNTU_CODENAME=jammy" ∷ []);
  mode = 420;
}

abbrev etc_issue_file : File
etc_issue_file = record {
  path = codes "etc/issue";
  content = lines ("Ubuntu 22.04.2 LTS \\n \\l" ∷ "" ∷ []);
  mode = 420;
}

abbrev etc_resolv_conf_file : File
etc_resolv_conf_file = record {
  path = codes "etc/resolv.conf";
  content = lines (
      "# This is /run/systemd/resolve/stub-resolv.conf managed by man:systemd-resolved(8)."
      ∷ "nameserver 127.0.0.53" ∷ "options edns0 trust-ad" ∷ "search localdomain" ∷ []);
  mode = 420;
}

abbrev etc_crontab_file : File
etc_crontab_file = record {
  path = codes "etc/crontab";
  content = lines (
      "# /etc/crontab: system-wide crontab" ∷ "SHELL=/bin/sh"
      ∷ "PATH=/usr/local/sbin:/usr/local/bin:/sbin:/bin:/usr/sbin:/usr/bin" ∷ ""
      ∷ "# m h dom mon dow user  command"
      ∷ "17 *    * * *   root    cd / && run-parts --report /etc/cron.hourly"
      ∷ "25 6    * * *   root    test -x /usr/sbin/anacron || ( cd / && run-parts --report /etc/cron.daily )"
      ∷ "47 6    * * 7   root    test -x /usr/sbin/anacron || ( cd / && run-parts --report /etc/cron.weekly )"
      ∷ "52 6    1 * *   root    test -x /usr/sbin/anacron || ( cd / && run-parts --report /etc/cron.monthly )"
      ∷ "0 2     * * *   root    /bin/bash /root/backup.sh >> /var/log/backup.log 2>&1" ∷ []);
  mode = 420;
}

abbrev etc_fstab_file : File
etc_fstab_file = record {
  path = codes "etc/fstab";
  content = lines (
      "# /etc/fstab: static file system information."
      ∷ "UUID=3a1b2c3d-4e5f-6a7b-8c9d-0e1f2a3b4c5d /               ext4    errors=remount-ro 0       1"
      ∷ "/swapfile                                 none            swap    sw              0       0"
      ∷ []);
  mode = 420;
}

abbrev etc_sudoers_file : File
etc_sudoers_file = record {
  path = codes "etc/sudoers";
  content = lines (
      "Defaults        env_reset" ∷ "Defaults        mail_badpass"
      ∷ "Defaults        secure_path=\"/usr/local/sbin:/usr/local/bin:/usr/sbin:/usr/bin:/sbin:/bin\""
      ∷ "root    ALL=(ALL:ALL) ALL" ∷ "%admin ALL=(ALL) ALL" ∷ "%sudo   ALL=(ALL:ALL) ALL" ∷ []);
  mode = 288;
}

abbrev etc_ssh_sshd_config_file : File
etc_ssh_sshd_config_file = record {
  path = codes "etc/ssh/sshd_config";
  content = lines (
      "Port 22" ∷ "PermitRootLogin yes" ∷ "PasswordAuthentication yes"
      ∷ "ChallengeResponseAuthentication no" ∷ "UsePAM yes" ∷ "X11Forwarding yes" ∷ "PrintMotd no"
      ∷ "AcceptEnv LANG LC_*" ∷ "Subsystem       sftp    /usr/lib/openssh/sftp-server" ∷ []);
  mode = 420;
}

abbrev etc_shells_file : File
etc_shells_file = record {
  path = codes "etc/shells";
  content = lines (
      "# /etc/shells: valid login shells" ∷ "/bin/sh" ∷ "/bin/bash" ∷ "/usr/bin/sh"
      ∷ "/usr/bin/bash" ∷ "/bin/rbash" ∷ "/usr/bin/rbash" ∷ "/bin/dash" ∷ "/usr/bin/dash" ∷ []);
  mode = 420;
}

abbrev etc_environment_file : File
etc_environment_file = record {
  path = codes "etc/environment";
  content = lines (
      "PATH=\"/usr/local/sbin:/usr/local/bin:/usr/sbin:/usr/bin:/sbin:/bin:/usr/games:/usr/local/games:/snap/bin\""
      ∷ []);
  mode = 420;
}

abbrev etc_apt_sources_list_file : File
etc_apt_sources_list_file = record {
  path = codes "etc/apt/sources.list";
  content = lines (
      "deb http://archive.ubuntu.com/ubuntu jammy main restricted"
      ∷ "deb http://archive.ubuntu.com/ubuntu jammy-updates main restricted"
      ∷ "deb http://archive.ubuntu.com/ubuntu jammy universe"
      ∷ "deb http://archive.ubuntu.com/ubuntu jammy-updates universe"
      ∷ "deb http://security.ubuntu.com/ubuntu jammy-security main restricted"
      ∷ "deb http://security.ubuntu.com/ubuntu jammy-security universe" ∷ []);
  mode = 420;
}

abbrev proc_cpuinfo_file : File
proc_cpuinfo_file = record {
  path = codes "proc/cpuinfo";
  content = lines (
      "processor\t: 0" ∷ "vendor_id\t: GenuineIntel" ∷ "cpu family\t: 6" ∷ "model\t\t: 142"
      ∷ "model name\t: Intel(R) Xeon(R) CPU E5-2676 v3 @ 2.40GHz" ∷ "stepping\t: 2"
      ∷ "cpu MHz\t\t: 2400.046" ∷ "cache size\t: 30720 KB" ∷ "physical id\t: 0" ∷ "siblings\t: 2"
      ∷ "core id\t\t: 0" ∷ "cpu cores\t: 2"
      ∷ "flags\t\t: fpu vme de pse tsc msr pae mce cx8 apic sep mtrr pge mca cmov pat pse36 clflush mmx fxsr sse sse2 ht syscall nx rdtscp lm constant_tsc rep_good nopl xtopology cpuid tsc_known_freq pni pclmulqdq ssse3 fma cx16 pcid sse4_1 sse4_2 x2apic movbe popcnt tsc_deadline_timer aes xsave avx f16c rdrand hypervisor lahf_lm abm cpuid_fault invpcid_single pti fsgsbase bmi1 avx2 smep bmi2 invpcid xsaveopt arat"
      ∷ "bugs\t\t: cpu_meltdown spectre_v1 spectre_v2 spec_store_bypass l1tf mds swapgs itlb_multihit"
      ∷ "bogomips\t: 4800.09" ∷ "clflush size\t: 64" ∷ "cache_alignment\t: 64"
      ∷ "address sizes\t: 46 bits physical, 48 bits virtual" ∷ "" ∷ "processor\t: 1"
      ∷ "vendor_id\t: GenuineIntel" ∷ "cpu family\t: 6" ∷ "model\t\t: 142"
      ∷ "model name\t: Intel(R) Xeon(R) CPU E5-2676 v3 @ 2.40GHz" ∷ "stepping\t: 2"
      ∷ "cpu MHz\t\t: 2400.046" ∷ "cache size\t: 30720 KB" ∷ "physical id\t: 0" ∷ "siblings\t: 2"
      ∷ "core id\t\t: 1" ∷ "cpu cores\t: 2" ∷ []);
  mode = 292;
}

abbrev proc_meminfo_file : File
proc_meminfo_file = record {
  path = codes "proc/meminfo";
  content = lines (
      "MemTotal:        4016148 kB" ∷ "MemFree:         1845120 kB" ∷ "MemAvailable:    2954312 kB"
      ∷ "Buffers:          124508 kB" ∷ "Cached:          1156824 kB"
      ∷ "SwapCached:            0 kB" ∷ "Active:          1250140 kB"
      ∷ "Inactive:         754210 kB" ∷ "SwapTotal:       2097148 kB"
      ∷ "SwapFree:        2097148 kB" ∷ []);
  mode = 292;
}

abbrev proc_version_file : File
proc_version_file = record {
  path = codes "proc/version";
  content = lines (
      "Linux version 5.15.0-72-generic (buildd@lcy02-amd64-019) (gcc (Ubuntu 11.3.0-1ubuntu1~22.04) 11.3.0, GNU ld (GNU Binutils for Ubuntu) 2.38) #79-Ubuntu SMP Wed Apr 19 08:22:18 UTC 2023"
      ∷ []);
  mode = 292;
}

abbrev proc_uptime_file : File
proc_uptime_file = record {
  path = codes "proc/uptime";
  content = lines ("84321.45 167234.12" ∷ []);
  mode = 292;
}

abbrev proc_loadavg_file : File
proc_loadavg_file = record {
  path = codes "proc/loadavg";
  content = lines ("0.08 0.03 0.01 1/148 2841" ∷ []);
  mode = 292;
}

abbrev root_bashrc_file : File
root_bashrc_file = record {
  path = codes "root/.bashrc";
  content = lines (
      "# ~/.bashrc: executed by bash(1) for non-login shells."
      ∷ "export PS1='\\[\\e]0;\\u@\\h: \\w\\a\\]\\u@\\h:\\w\\# '" ∷ "alias ls='ls --color=auto'"
      ∷ "alias ll='ls -alF'" ∷ "alias la='ls -A'" ∷ "alias l='ls -CF'" ∷ []);
  mode = 420;
}

abbrev root_profile_file : File
root_profile_file = record {
  path = codes "root/.profile";
  content = lines (
      "# ~/.profile: executed by Bourne-compatible login shells." ∷ "if [ \"$BASH\" ]; then"
      ∷ "if [ -f ~/.bashrc ]; then" ∷ ". ~/.bashrc" ∷ "fi" ∷ "fi" ∷ "mesg n 2> /dev/null || true"
      ∷ []);
  mode = 420;
}

abbrev root_bash_history_file : File
root_bash_history_file = record {
  path = codes "root/.bash_history";
  content = lines (
      "apt-get update" ∷ "systemctl status nginx" ∷ "docker ps" ∷ "cat /etc/hosts" ∷ "ufw status"
      ∷ "ls -la /root" ∷ []);
  mode = 384;
}

abbrev root_backup_sh_file : File
root_backup_sh_file = record {
  path = codes "root/backup.sh";
  content = lines (
      "#!/bin/bash" ∷ "# Daily automated system backup"
      ∷ "tar -czf /var/backups/system_$(date +%Y%m%d).tar.gz /etc /var/www 2>/dev/null" ∷ []);
  mode = 488;
}

abbrev home_ubuntu_bashrc_file : File
home_ubuntu_bashrc_file = record {
  path = codes "home/ubuntu/.bashrc";
  content = lines (
      "export PS1='\\[\\e]0;\\u@\\h: \\w\\a\\]\\u@\\h:\\w\\$ '" ∷ "alias ls='ls --color=auto'"
      ∷ []);
  mode = 420;
}

abbrev home_ubuntu_projects_readme_txt_file : File
home_ubuntu_projects_readme_txt_file = record {
  path = codes "home/ubuntu/projects/README.txt";
  content = lines ("Internal development projects directory." ∷ []);
  mode = 420;
}

abbrev var_www_html_index_html_file : File
var_www_html_index_html_file = record {
  path = codes "var/www/html/index.html";
  content = lines (
      "<!DOCTYPE html>" ∷ "<html>" ∷ "<head><title>Welcome to nginx!</title></head>"
      ∷ "<body><h1>Welcome to nginx!</h1><p>If you see this page, the nginx web server is successfully installed.</p></body>"
      ∷ "</html>" ∷ []);
  mode = 420;
}

abbrev var_log_auth_log_file : File
var_log_auth_log_file = record {
  path = codes "var/log/auth.log";
  content = lines (
      "Aug 27 18:00:01 ubuntu-server-01 CRON[1402]: pam_unix(cron:session): session opened for user root by (uid=0)"
      ∷ "Aug 27 18:00:01 ubuntu-server-01 CRON[1402]: pam_unix(cron:session): session closed for user root"
      ∷ "Aug 27 18:25:01 ubuntu-server-01 sshd[1842]: Accepted password for root from 192.0.2.100 port 52341 ssh2"
      ∷ []);
  mode = 416;
}

abbrev var_log_syslog_file : File
var_log_syslog_file = record {
  path = codes "var/log/syslog";
  content = lines (
      "Aug 27 18:00:01 ubuntu-server-01 systemd[1]: Starting Daily apt download activities..."
      ∷ "Aug 27 18:00:02 ubuntu-server-01 systemd[1]: Finished Daily apt download activities."
      ∷ []);
  mode = 416;
}

-- The files in the order in which they are written.
abbrev pub files : List File
files =
    etc_passwd_file ∷ etc_shadow_file ∷ etc_group_file ∷ etc_hosts_file ∷ etc_hostname_file
    ∷ etc_os_release_file ∷ etc_issue_file ∷ etc_resolv_conf_file ∷ etc_crontab_file
    ∷ etc_fstab_file ∷ etc_sudoers_file ∷ etc_ssh_sshd_config_file ∷ etc_shells_file
    ∷ etc_environment_file ∷ etc_apt_sources_list_file ∷ proc_cpuinfo_file ∷ proc_meminfo_file
    ∷ proc_version_file ∷ proc_uptime_file ∷ proc_loadavg_file ∷ root_bashrc_file
    ∷ root_profile_file ∷ root_bash_history_file ∷ root_backup_sh_file ∷ home_ubuntu_bashrc_file
    ∷ home_ubuntu_projects_readme_txt_file ∷ var_www_html_index_html_file ∷ var_log_auth_log_file
    ∷ var_log_syslog_file ∷ []

abbrev pub bin_names : List Text
bin_names = map codes (
    "bash" ∷ "sh" ∷ "dash" ∷ "ls" ∷ "cat" ∷ "cp" ∷ "mv" ∷ "rm" ∷ "mkdir" ∷ "rmdir" ∷ "touch"
    ∷ "chmod" ∷ "chown" ∷ "uname" ∷ "id" ∷ "whoami" ∷ "hostname" ∷ "ps" ∷ "kill" ∷ "pkill" ∷ "grep"
    ∷ "find" ∷ "sed" ∷ "awk" ∷ "cut" ∷ "head" ∷ "tail" ∷ "wc" ∷ "sort" ∷ "uniq" ∷ "echo" ∷ "date"
    ∷ "sleep" ∷ "which" ∷ "curl" ∷ "wget" ∷ "python3" ∷ "python" ∷ "perl" ∷ "sudo" ∷ "su" ∷ "passwd"
    ∷ "crontab" ∷ "tar" ∷ "gzip" ∷ "base64" ∷ "xxd" ∷ "nc" ∷ "netcat" ∷ "ping" ∷ "netstat" ∷ "ss"
    ∷ "ifconfig" ∷ "ip" ∷ "df" ∷ "free" ∷ "uptime" ∷ "dmesg" ∷ "systemctl" ∷ "service"
    ∷ "journalctl" ∷ "apt" ∷ "apt-get" ∷ "dpkg" ∷ "nmap" ∷ [])
