-- ===== src/Gateway/Shell/Canned.antt =====
-- crates/aegis-gateway/src/shell.rs: the constant answers, line by line. In the source each line but
-- the first follows a `\` at the end of the line before, which drops its leading white space.
use aegis_honeypot.Prelude.{List, [], ◌∷◌, ◌++◌}
use aegis_honeypot.Prelude.Text.{Text, codes, newline}
use Prim.Native.String.{String}

-- Lines with their ends.
abbrev pub lines_of : List String → Text
lines_of [] = []
lines_of (l ∷ ls) = codes l ++ newline ++ lines_of ls

abbrev pub uname : Text
uname = lines_of (
    "Linux ubuntu-server-01 5.15.0-72-generic #79-Ubuntu SMP Wed Apr 19 08:22:18 UTC 2023 x86_64 x86_64 x86_64 GNU/Linux"
    ∷ [])

abbrev pub ps_aux : Text
ps_aux = lines_of (
    "USER       PID %CPU %MEM    VSZ   RSS TTY      STAT START   TIME COMMAND"
    ∷ "root         1  0.0  0.1 165924  9080 ?        Ss   Aug26   0:03 /sbin/init"
    ∷ "root       512  0.0  0.1  72296  5584 ?        Ss   Aug26   0:00 /lib/systemd/systemd-journald"
    ∷ "root       783  0.0  0.0 104740  1736 ?        Ssl  Aug26   0:00 /usr/sbin/rsyslogd -n"
    ∷ "root       849  0.0  0.0  72292  2092 ?        Ss   Aug26   0:00 /usr/sbin/cron -f"
    ∷ "root      1200  0.0  0.1  71828  5912 ?        Ss   Aug26   0:00 /usr/sbin/sshd -D"
    ∷ "root      1822  0.0  0.1 107700  7228 ?        Ss   18:12   0:00 sshd: root@pts/0"
    ∷ "root      1824  0.0  0.0  21336  4488 pts/0    Ss   18:12   0:00 -bash"
    ∷ "www-data  2100  0.0  0.5 190120 21032 ?        S    Aug26   0:12 nginx: worker process"
    ∷ "root      2099  0.0  0.1  54876  4472 ?        Ss   Aug26   0:00 nginx: master process /usr/sbin/nginx -g daemon on; master_process on;"
    ∷ "root      2901  0.0  0.3 1487420 13588 ?       Ssl  Aug26   0:15 dockerd --host=fd:// --containerd=/run/containerd/containerd.sock"
    ∷ "root      3100  0.0  0.2 711100 10644 ?        Ssl  Aug26   0:02 /usr/bin/containerd"
    ∷ "mysql     4122  0.1  3.2 1821196 132488 ?      Sl   Aug26   1:23 /usr/sbin/mysqld" ∷ [])

abbrev pub netstat : Text
netstat = lines_of (
    "Active Internet connections (w/o servers)"
    ∷ "Proto Recv-Q Send-Q Local Address           Foreign Address         State"
    ∷ "tcp        0      0 0.0.0.0:22              0.0.0.0:*               LISTEN"
    ∷ "tcp        0      0 0.0.0.0:80              0.0.0.0:*               LISTEN"
    ∷ "tcp        0      0 0.0.0.0:443             0.0.0.0:*               LISTEN"
    ∷ "tcp        0      0 127.0.0.1:3306          0.0.0.0:*               LISTEN"
    ∷ "tcp        0      0 0.0.0.0:8080            0.0.0.0:*               LISTEN"
    ∷ "tcp6       0      0 :::22                   :::*                    LISTEN"
    ∷ "tcp6       0      0 :::80                   :::*                    LISTEN" ∷ [])

abbrev pub ss_out : Text
ss_out = lines_of (
    "Netid    State    Recv-Q  Send-Q    Local Address:Port     Peer Address:Port  Process"
    ∷ "tcp      LISTEN   0       128             0.0.0.0:22            0.0.0.0:*     users:((\"sshd\",pid=1200,fd=3))"
    ∷ "tcp      LISTEN   0       511             0.0.0.0:80            0.0.0.0:*     users:((\"nginx\",pid=2099,fd=6))"
    ∷ "tcp      LISTEN   0       511             0.0.0.0:443           0.0.0.0:*     users:((\"nginx\",pid=2099,fd=7))"
    ∷ "tcp      LISTEN   0       128           127.0.0.1:3306          0.0.0.0:*     users:((\"mysqld\",pid=4122,fd=29))"
    ∷ [])

abbrev pub ifconfig : Text
ifconfig = lines_of (
    "eth0: flags=4163<UP,BROADCAST,RUNNING,MULTICAST>  mtu 1500"
    ∷ "inet 192.0.2.15  netmask 255.255.255.0  broadcast 192.0.2.255"
    ∷ "inet6 fe80::200:5eff:fe00:1  prefixlen 64  scopeid 0x20<link>"
    ∷ "ether 02:00:5e:00:00:01  txqueuelen 1000  (Ethernet)"
    ∷ "RX packets 184293 bytes 217234891 (207.2 MiB)" ∷ "TX packets 40237 bytes 5827433 (5.5 MiB)"
    ∷ "" ∷ "lo: flags=73<UP,LOOPBACK,RUNNING>  mtu 65536" ∷ "inet 127.0.0.1  netmask 255.0.0.0"
    ∷ "inet6 ::1  prefixlen 128  scopeid 0x10<host>" ∷ "loop  txqueuelen 1000  (Local Loopback)"
    ∷ [])

abbrev pub ip_a : Text
ip_a = lines_of (
    "1: lo: <LOOPBACK,UP,LOWER_UP> mtu 65536 qdisc noqueue state UNKNOWN group default qlen 1000"
    ∷ "link/loopback 00:00:00:00:00:00 brd 00:00:00:00:00:00" ∷ "inet 127.0.0.1/8 scope host lo"
    ∷ "2: eth0: <BROADCAST,MULTICAST,UP,LOWER_UP> mtu 1500 qdisc mq state UP group default qlen 1000"
    ∷ "link/ether 02:00:5e:00:00:01 brd ff:ff:ff:ff:ff:ff"
    ∷ "inet 192.0.2.15/24 brd 192.0.2.255 scope global eth0" ∷ [])

abbrev pub lscpu : Text
lscpu = lines_of (
    "Architecture:                    x86_64" ∷ "CPU op-mode(s):                  32-bit, 64-bit"
    ∷ "Byte Order:                      Little Endian"
    ∷ "Address sizes:                   46 bits physical, 48 bits virtual"
    ∷ "CPU(s):                          4" ∷ "On-line CPU(s) list:             0-3"
    ∷ "Thread(s) per core:              1" ∷ "Core(s) per socket:              4"
    ∷ "Socket(s):                       1"
    ∷ "Model name:                      Intel(R) Xeon(R) CPU E5-2676 v3 @ 2.40GHz"
    ∷ "CPU MHz:                         2400.062" ∷ "BogoMIPS:                        4800.12"
    ∷ "L3 cache:                        30720K" ∷ "NUMA node0 CPU(s):               0-3" ∷ [])

abbrev pub crontab_l : Text
crontab_l = lines_of (
    "# Edit this file to introduce tasks to be run by cron." ∷ "# m h  dom mon dow   command"
    ∷ "0 2 * * *  /bin/bash /root/backup.sh >> /var/log/backup.log 2>&1"
    ∷ "*/15 * * * *  curl -s http://monitoring.example.com/health > /dev/null" ∷ [])

abbrev pub env_out : Text
env_out = lines_of (
    "HOME=/root" ∷ "SHELL=/bin/bash" ∷ "USER=root" ∷ "LOGNAME=root"
    ∷ "PATH=/usr/local/sbin:/usr/local/bin:/usr/sbin:/usr/bin:/sbin:/bin" ∷ "LANG=en_US.UTF-8"
    ∷ "TERM=xterm-256color" ∷ "SHLVL=1" ∷ "_=/usr/bin/env" ∷ [])

abbrev pub last_out : Text
last_out = lines_of (
    "root     pts/0        192.0.2.100      Mon Aug 26 22:14   still logged in"
    ∷ "root     pts/0        198.51.100.45    Mon Aug 26 03:12 - 03:14  (00:01)"
    ∷ "root     pts/0        203.0.113.156    Sun Aug 25 19:44 - 19:47  (00:02)"
    ∷ "ubuntu   pts/1        192.0.2.100      Sat Aug 24 15:30 - 17:22  (01:52)" ∷ ""
    ∷ "wtmp begins Wed Aug 01 00:00:00 2026" ∷ [])

abbrev pub df_h : Text
df_h = lines_of (
    "Filesystem      Size  Used Avail Use% Mounted on" ∷ "/dev/sda1        50G   18G   30G  38% /"
    ∷ "tmpfs           3.9G     0  3.9G   0% /dev/shm"
    ∷ "/dev/sda15      105M  5.3M  100M   6% /boot/efi" ∷ [])

abbrev pub free_h : Text
free_h = lines_of (
    "total        used        free      shared  buff/cache   available"
    ∷ "Mem:           7.8Gi       2.1Gi       3.0Gi        74Mi       2.7Gi       5.4Gi"
    ∷ "Swap:          2.0Gi          0B       2.0Gi" ∷ [])

abbrev pub uptime : Text
uptime = lines_of (" 18:25:01 up 15 days,  6:12,  1 user,  load average: 0.12, 0.08, 0.03" ∷ [])

abbrev pub w_out : Text
w_out = lines_of (
    "18:25:01 up 15 days,  6:12,  1 user,  load average: 0.12, 0.08, 0.03"
    ∷ "USER     TTY      FROM             LOGIN@   IDLE JCPU   PCPU WHAT"
    ∷ "root     pts/0    192.0.2.100     18:12    0.00s  0.06s  0.01s -bash" ∷ [])
