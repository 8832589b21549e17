-- ===== src/Gateway/Vfs/DefaultFs.antt =====
-- crates/aegis-gateway/src/vfs.rs: the tree in memory that every session starts with, one
-- definition for each directory that is not empty. The directories insert in the source's order.
use aegis_honeypot.Prelude.{List, [], ◌∷◌, list_eq}
use aegis_honeypot.Prelude.Text.{codes}
use aegis_honeypot.Gateway.Vfs.{
  FsNode, file, dir, DirNode, new_file, denied, new_dir, with_perms, insert_child,
}
use Prim.Native.String.{String}

-- `file!`.
abbrev new : String → FsNode
new content = file (new_file (codes content))

-- `DirNode::new()` with the builder calls that follow it.
abbrev built : List (DirNode → DirNode) → DirNode → DirNode
built [] d = d
built (f ∷ fs) d = built fs (f d)

abbrev bin_dir : DirNode
bin_dir =
    built
      (insert_child (codes "bash") (new "")
        ∷ insert_child (codes "sh") (new "")
        ∷ insert_child (codes "ls") (new "")
        ∷ insert_child (codes "cat") (new "")
        ∷ insert_child (codes "cp") (new "")
        ∷ insert_child (codes "mv") (new "")
        ∷ insert_child (codes "rm") (new "")
        ∷ insert_child (codes "mkdir") (new "")
        ∷ insert_child (codes "chmod") (new "")
        ∷ insert_child (codes "chown") (new "")
        ∷ insert_child (codes "uname") (new "")
        ∷ insert_child (codes "id") (new "")
        ∷ insert_child (codes "whoami") (new "")
        ∷ insert_child (codes "hostname") (new "")
        ∷ insert_child (codes "ps") (new "")
        ∷ insert_child (codes "grep") (new "")
        ∷ insert_child (codes "echo") (new "")
        ∷ insert_child (codes "date") (new "")
        ∷ insert_child (codes "curl") (new "")
        ∷ insert_child (codes "wget") (new "")
        ∷ insert_child (codes "python3") (new "")
        ∷ [])
      new_dir

abbrev boot_grub_dir : DirNode
boot_grub_dir =
    built (insert_child (codes "grub.cfg") (new "# GRUB configuration file\n") ∷ []) new_dir

abbrev boot_dir : DirNode
boot_dir =
    built
      (insert_child (codes "vmlinuz-5.15.0-72-generic") (new "")
        ∷ insert_child (codes "initrd.img-5.15.0-72-generic") (new "")
        ∷ insert_child (codes "config-5.15.0-72-generic") (new "")
        ∷ insert_child (codes "System.map-5.15.0-72-generic") (new "")
        ∷ insert_child (codes "grub") (dir boot_grub_dir)
        ∷ [])
      new_dir

abbrev dev_dir : DirNode
dev_dir =
    built
      (insert_child (codes "null") (new "")
        ∷ insert_child (codes "zero") (new "")
        ∷ insert_child (codes "urandom") (new "")
        ∷ insert_child (codes "random") (new "")
        ∷ insert_child (codes "tty") (new "")
        ∷ insert_child (codes "pts") (dir new_dir)
        ∷ insert_child (codes "shm") (dir new_dir)
        ∷ insert_child (codes "sda") (new "")
        ∷ insert_child (codes "sda1") (new "")
        ∷ [])
      new_dir

abbrev etc_ssh_dir : DirNode
etc_ssh_dir =
    built
      (insert_child (codes "sshd_config")
          (new "Port 22\nPermitRootLogin yes\nPasswordAuthentication yes\nX11Forwarding yes\n")
        ∷ [])
      new_dir

abbrev etc_network_dir : DirNode
etc_network_dir =
    built (insert_child (codes "interfaces") (new "auto lo\niface lo inet loopback\n") ∷ []) new_dir

abbrev etc_apt_dir : DirNode
etc_apt_dir =
    built
      (insert_child (codes "sources.list")
          (new "deb http://archive.ubuntu.com/ubuntu jammy main restricted\n")
        ∷ [])
      new_dir

abbrev etc_dir : DirNode
etc_dir =
    built
      (insert_child (codes "passwd") (
          new
            "root:x:0:0:root:/root:/bin/bash\ndaemon:x:1:1:daemon:/usr/sbin:/usr/sbin/nologin\nbin:x:2:2:bin:/bin:/usr/sbin/nologin\nsys:x:3:3:sys:/dev:/usr/sbin/nologin\nwww-data:x:33:33:www-data:/var/www:/usr/sbin/nologin\nsshd:x:106:65534::/run/sshd:/usr/sbin/nologin\nubuntu:x:1000:1000:Ubuntu:/home/ubuntu:/bin/bash\n")
        ∷ insert_child (codes "shadow") (
            file (
              denied (
                new_file (
                  codes
                    "root:*:19400:0:99999:7:::\nubuntu:$6$fakesalt$encryptedhash:19400:0:99999:7:::\n"))))
        ∷ insert_child (codes "group") (
            new
              "root:x:0:\ndaemon:x:1:\nadm:x:4:syslog,ubuntu\nsudo:x:27:ubuntu\nwww-data:x:33:\nshadow:x:42:\nubuntu:x:1000:\n")
        ∷ insert_child (codes "hosts") (
            new "127.0.0.1 localhost\n127.0.1.1 ubuntu-server-01\n::1 ip6-localhost ip6-loopback\n")
        ∷ insert_child (codes "hostname") (new "ubuntu-server-01\n")
        ∷ insert_child (codes "os-release") (
            new
              "NAME=\"Ubuntu\"\nVERSION=\"22.04.2 LTS (Jammy Jellyfish)\"\nID=ubuntu\nPRETTY_NAME=\"Ubuntu 22.04.2 LTS\"\nVERSION_ID=\"22.04\"\n")
        ∷ insert_child (codes "issue") (new "Ubuntu 22.04.2 LTS \\n \\l\n\n")
        ∷ insert_child (codes "resolv.conf") (new "nameserver 127.0.0.53\noptions edns0 trust-ad\n")
        ∷ insert_child (codes "crontab") (
            new
              "# /etc/crontab\n0 2 * * *  root /bin/bash /root/backup.sh >> /var/log/backup.log 2>&1\n")
        ∷ insert_child (codes "fstab") (new "UUID=3a1b2c3d / ext4 errors=remount-ro 0 1\n")
        ∷ insert_child (codes "sudoers") (new "root ALL=(ALL:ALL) ALL\n%sudo ALL=(ALL:ALL) ALL\n")
        ∷ insert_child (codes "shells") (new "/bin/sh\n/bin/bash\n/usr/bin/sh\n/usr/bin/bash\n")
        ∷ insert_child (codes "environment")
            (new "PATH=\"/usr/local/sbin:/usr/local/bin:/usr/sbin:/usr/bin:/sbin:/bin\"\n")
        ∷ insert_child (codes "ssh") (dir etc_ssh_dir)
        ∷ insert_child (codes "network") (dir etc_network_dir)
        ∷ insert_child (codes "apt") (dir etc_apt_dir)
        ∷ [])
      new_dir

abbrev home_ubuntu_projects_dir : DirNode
home_ubuntu_projects_dir =
    built (insert_child (codes "README.txt") (new "Internal development projects.\n") ∷ []) new_dir

abbrev home_ubuntu_dir : DirNode
home_ubuntu_dir =
    built
      (insert_child (codes ".bashrc") (new "export PS1='\\u@\\h:\\w\\$ '\n")
        ∷ insert_child (codes ".profile") (new "")
        ∷ insert_child (codes ".ssh") (dir new_dir)
        ∷ insert_child (codes "projects") (dir home_ubuntu_projects_dir)
        ∷ [])
      new_dir

abbrev home_dir : DirNode
home_dir = built (insert_child (codes "ubuntu") (dir home_ubuntu_dir) ∷ []) new_dir

abbrev lib_modules_dir : DirNode
lib_modules_dir = built (insert_child (codes "5.15.0-72-generic") (dir new_dir) ∷ []) new_dir

abbrev lib_dir : DirNode
lib_dir =
    built
      (insert_child (codes "x86_64-linux-gnu") (dir new_dir)
        ∷ insert_child (codes "modules") (dir lib_modules_dir)
        ∷ [])
      new_dir

abbrev lib64_dir : DirNode
lib64_dir = built (insert_child (codes "ld-linux-x86-64.so.2") (new "") ∷ []) new_dir

abbrev proc_net_dir : DirNode
proc_net_dir =
    built
      (insert_child (codes "dev") (
          new
            "Inter-|   Receive                                                |  Transmit\n face |bytes    packets errs drop fifo frame compressed multicast|bytes    packets errs drop fifo colls carrier compressed\n    lo: 1234567     890    0    0    0     0          0         0  1234567     890    0    0    0     0       0          0\n  eth0: 9876543    4567    0    0    0     0          0         0  9876543    4567    0    0    0     0       0          0\n")
        ∷ [])
      new_dir

abbrev proc_sys_kernel_dir : DirNode
proc_sys_kernel_dir =
    built
      (insert_child (codes "hostname") (new "ubuntu-server-01\n")
        ∷ insert_child (codes "osrelease") (new "5.15.0-72-generic\n")
        ∷ [])
      new_dir

abbrev proc_sys_dir : DirNode
proc_sys_dir = built (insert_child (codes "kernel") (dir proc_sys_kernel_dir) ∷ []) new_dir

abbrev proc_dir : DirNode
proc_dir =
    built
      (insert_child (codes "cpuinfo") (
          new
            "processor\t: 0\nvendor_id\t: GenuineIntel\nmodel name\t: Intel(R) Xeon(R) CPU E5-2676 v3 @ 2.40GHz\ncpu cores\t: 2\n")
        ∷ insert_child (codes "meminfo") (
            new
              "MemTotal:        4016148 kB\nMemFree:         1845120 kB\nMemAvailable:    2954312 kB\n")
        ∷ insert_child (codes "version") (
            new
              "Linux version 5.15.0-72-generic (buildd@lcy02-amd64-019) (gcc 11.3.0) #79-Ubuntu SMP Wed Apr 19 08:22:18 UTC 2023\n")
        ∷ insert_child (codes "uptime") (new "84321.45 167234.12\n")
        ∷ insert_child (codes "loadavg") (new "0.08 0.03 0.01 1/148 2841\n")
        ∷ insert_child (codes "mounts") (
            new
              "rootfs / rootfs rw 0 0\nsysfs /sys sysfs rw,nosuid,nodev,noexec,relatime 0 0\nproc /proc proc rw,nosuid,nodev,noexec,relatime 0 0\n")
        ∷ insert_child (codes "net") (dir proc_net_dir)
        ∷ insert_child (codes "sys") (dir proc_sys_dir)
        ∷ [])
      new_dir

abbrev root_ssh_dir : DirNode
root_ssh_dir =
    built
      (insert_child (codes "authorized_keys")
          (new "ssh-ed25519 AAAAC3NzaC1lZDI1NTE5AAAAIExampleKey root@mgmt\n")
        ∷ [])
      new_dir

abbrev root_dir : DirNode
root_dir =
    built
      (insert_child (codes ".bashrc")
          (new "# ~/.bashrc\nexport PS1='\\u@\\h:\\w\\# '\nalias ls='ls --color=auto'\n")
        ∷ insert_child (codes ".profile") (new "")
        ∷ insert_child (codes ".bash_history") (
            new
              "apt-get update\nsystemctl status nginx\ndocker ps\ncat /etc/hosts\nufw status\nls -la /root\n")
        ∷ insert_child (codes ".ssh") (dir root_ssh_dir)
        ∷ insert_child (codes "backup.sh")
            (new "#!/bin/bash\ntar -czf /var/backups/system_backup.tar.gz /etc /var/www\n")
        ∷ [])
      new_dir

abbrev run_dir : DirNode
run_dir =
    built
      (insert_child (codes "sshd.pid") (new "1042\n")
        ∷ insert_child (codes "systemd") (dir new_dir)
        ∷ insert_child (codes "lock") (dir new_dir)
        ∷ [])
      new_dir

abbrev sbin_dir : DirNode
sbin_dir =
    built
      (insert_child (codes "init") (new "")
        ∷ insert_child (codes "reboot") (new "")
        ∷ insert_child (codes "shutdown") (new "")
        ∷ insert_child (codes "iptables") (new "")
        ∷ insert_child (codes "ip") (new "")
        ∷ insert_child (codes "ifconfig") (new "")
        ∷ insert_child (codes "fdisk") (new "")
        ∷ [])
      new_dir

abbrev sys_fs_dir : DirNode
sys_fs_dir = built (insert_child (codes "cgroup") (dir new_dir) ∷ []) new_dir

abbrev sys_dir : DirNode
sys_dir =
    built
      (insert_child (codes "class") (dir new_dir)
        ∷ insert_child (codes "devices") (dir new_dir)
        ∷ insert_child (codes "fs") (dir sys_fs_dir)
        ∷ [])
      new_dir

abbrev usr_bin_dir : DirNode
usr_bin_dir =
    built
      (insert_child (codes "python3") (new "")
        ∷ insert_child (codes "curl") (new "")
        ∷ insert_child (codes "wget") (new "")
        ∷ insert_child (codes "sudo") (new "")
        ∷ insert_child (codes "apt") (new "")
        ∷ insert_child (codes "apt-get") (new "")
        ∷ insert_child (codes "systemctl") (new "")
        ∷ insert_child (codes "netstat") (new "")
        ∷ insert_child (codes "ss") (new "")
        ∷ insert_child (codes "nc") (new "")
        ∷ insert_child (codes "base64") (new "")
        ∷ insert_child (codes "xxd") (new "")
        ∷ insert_child (codes "awk") (new "")
        ∷ insert_child (codes "sed") (new "")
        ∷ [])
      new_dir

abbrev usr_sbin_dir : DirNode
usr_sbin_dir =
    built (insert_child (codes "sshd") (new "") ∷ insert_child (codes "service") (new "") ∷ [])
      new_dir

abbrev usr_local_dir : DirNode
usr_local_dir =
    built
      (insert_child (codes "bin") (dir new_dir) ∷ insert_child (codes "sbin") (dir new_dir) ∷ [])
      new_dir

abbrev usr_dir : DirNode
usr_dir =
    built
      (insert_child (codes "bin") (dir usr_bin_dir)
        ∷ insert_child (codes "sbin") (dir usr_sbin_dir)
        ∷ insert_child (codes "lib") (dir new_dir)
        ∷ insert_child (codes "local") (dir usr_local_dir)
        ∷ insert_child (codes "share") (dir new_dir)
        ∷ [])
      new_dir

abbrev var_cache_dir : DirNode
var_cache_dir = built (insert_child (codes "apt") (dir new_dir) ∷ []) new_dir

abbrev var_lib_dir : DirNode
var_lib_dir = built (insert_child (codes "dpkg") (dir new_dir) ∷ []) new_dir

abbrev var_log_nginx_dir : DirNode
var_log_nginx_dir =
    built
      (insert_child (codes "access.log")
          (new "192.0.2.100 - - [27/Aug/2026:18:00:00 +0000] \"GET / HTTP/1.1\" 200 612\n")
        ∷ [])
      new_dir

abbrev var_log_dir : DirNode
var_log_dir =
    built
      (insert_child (codes "auth.log") (
          new
            "Aug 27 18:00:01 ubuntu-server-01 CRON[1402]: pam_unix(cron:session): session opened for user root\n")
        ∷ insert_child (codes "syslog") (
            new
              "Aug 27 18:00:01 ubuntu-server-01 systemd[1]: Starting Daily apt download activities...\n")
        ∷ insert_child (codes "dpkg.log")
            (new "2026-08-20 14:00:00 status installed linux-image-5.15.0-72-generic:amd64\n")
        ∷ insert_child (codes "nginx") (dir var_log_nginx_dir)
        ∷ [])
      new_dir

abbrev var_www_html_dir : DirNode
var_www_html_dir =
    built
      (insert_child (codes "index.html")
          (new "<!DOCTYPE html><html><body><h1>Welcome to nginx!</h1></body></html>\n")
        ∷ [])
      new_dir

abbrev var_www_dir : DirNode
var_www_dir = built (insert_child (codes "html") (dir var_www_html_dir) ∷ []) new_dir

abbrev var_dir : DirNode
var_dir =
    built
      (insert_child (codes "backups") (dir new_dir)
        ∷ insert_child (codes "cache") (dir var_cache_dir)
        ∷ insert_child (codes "lib") (dir var_lib_dir)
        ∷ insert_child (codes "log") (dir var_log_dir)
        ∷ insert_child (codes "run") (dir new_dir)
        ∷ insert_child (codes "spool") (dir new_dir)
        ∷ insert_child (codes "tmp") (dir (with_perms (codes "drwxrwxrwt") new_dir))
        ∷ insert_child (codes "www") (dir var_www_dir)
        ∷ [])
      new_dir

abbrev pub build_default_fs : DirNode
build_default_fs =
    built
      (insert_child (codes "bin") (dir bin_dir)
        ∷ insert_child (codes "boot") (dir boot_dir)
        ∷ insert_child (codes "dev") (dir dev_dir)
        ∷ insert_child (codes "etc") (dir etc_dir)
        ∷ insert_child (codes "home") (dir home_dir)
        ∷ insert_child (codes "lib") (dir lib_dir)
        ∷ insert_child (codes "lib64") (dir lib64_dir)
        ∷ insert_child (codes "media") (dir new_dir)
        ∷ insert_child (codes "mnt") (dir new_dir)
        ∷ insert_child (codes "opt") (dir new_dir)
        ∷ insert_child (codes "proc") (dir proc_dir)
        ∷ insert_child (codes "root") (dir root_dir)
        ∷ insert_child (codes "run") (dir run_dir)
        ∷ insert_child (codes "sbin") (dir sbin_dir)
        ∷ insert_child (codes "srv") (dir new_dir)
        ∷ insert_child (codes "sys") (dir sys_dir)
        ∷ insert_child (codes "tmp") (dir (with_perms (codes "drwxrwxrwt") new_dir))
        ∷ insert_child (codes "usr") (dir usr_dir)
        ∷ insert_child (codes "var") (dir var_dir)
        ∷ [])
      new_dir
