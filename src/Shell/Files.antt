-- ===== src/Shell/Files.antt =====
-- honeypots/common/fakeshell.py: the fake filesystem, its files by path and its directories.
use honeypot_m1spro.Base.{Dict, String, List, [], ◌∷◌}
use honeypot_m1spro.Shell.Replies.{
  hostname, fake_passwd, fake_cpuinfo, fake_meminfo, fake_version, bash_history, fake_env,
  fake_id_rsa,
}

abbrev pub fake_files_content : Dict String
fake_files_content =
    ("/etc/passwd", fake_passwd)
    ∷ ("/etc/hostname", hostname)
    ∷ (
      "/etc/os-release",
      "PRETTY_NAME=\"Debian GNU/Linux 12 (bookworm)\"\nNAME=\"Debian GNU/Linux\"\nVERSION_ID=\"12\"\nVERSION=\"12 (bookworm)\"\nID=debian",
    )
    ∷ (
      "/etc/crontab",
      "# /etc/crontab\n17 *\t* * *\troot\tcd / && run-parts --report /etc/cron.hourly\n0 2\t* * *\troot\t/usr/local/bin/backup.sh\n",
    )
    ∷ (
      "/etc/ssh/sshd_config",
      "Port 22\nPermitRootLogin prohibit-password\nPasswordAuthentication yes\nX11Forwarding no\nSubsystem sftp internal-sftp",
    )
    ∷ (
      "/etc/nginx/nginx.conf",
      "user www-data;\nworker_processes auto;\nevents { worker_connections 768; }\nhttp { include /etc/nginx/sites-enabled/*; }",
    )
    ∷ ("/proc/cpuinfo", fake_cpuinfo)
    ∷ ("/proc/meminfo", fake_meminfo)
    ∷ ("/proc/version", fake_version)
    ∷ ("/var/www/html/index.html", "<!DOCTYPE html><html><body><h1>It works!</h1></body></html>")
    ∷ (
      "/var/www/html/config.php",
      "<?php\n$db_host='127.0.0.1';\n$db_user='appuser';\n$db_pass='S3cr3t_Pg_2026';\n$db_name='appdb';\n",
    )
    ∷ (
      "/var/log/auth.log",
      "Jun  8 10:21:03 srv-web-01 sshd[640]: Accepted password for admin from 10.13.0.9 port 51234 ssh2\nJun  8 10:19:47 srv-web-01 sshd[638]: Failed password for root from 203.0.113.7 port 40110 ssh2",
    )
    ∷ (
      "/var/log/syslog",
      "Jun  8 10:20:01 srv-web-01 CRON[2188]: (root) CMD (/usr/local/bin/backup.sh)",
    )
    ∷ ("/home/admin/.bash_history", bash_history)
    ∷ (
      "/home/admin/.bashrc",
      "# ~/.bashrc\nexport PS1='\\u@\\h:\\w\\$ '\nalias ll='ls -alF'\nalias la='ls -A'\nexport EDITOR=vim\n",
    )
    ∷ (
      "/home/admin/.profile",
      "# ~/.profile\nif [ -n \"$BASH_VERSION\" ]; then\n  . \"$HOME/.bashrc\"\nfi\nPATH=\"$HOME/bin:$PATH\"\n",
    )
    ∷ (
      "/home/admin/.gitconfig",
      "[user]\n\tname = Admin\n\temail = admin@example.com\n[credential]\n\thelper = store\n",
    )
    ∷ (
      "/home/admin/.viminfo",
      "# This viminfo file was generated by Vim 9.0.\n# Command Line History:\n:wq",
    )
    ∷ ("/home/admin/.lesshst", ".less-history-file:")
    ∷ ("/home/admin/.sudo_as_admin_successful", "")
    ∷ (
      "/home/admin/notes.txt",
      "TODO renouveler le certif TLS avant le 30/06\nAccès Grafana : admin / voir gestionnaire de mdp\nPenser à purger /var/log (disque à 78%)",
    )
    ∷ ("/home/admin/todo.txt", "- migrer la base vers PG16\n- activer fail2ban\n- audit sécu Q3")
    ∷ (
      "/home/admin/.ssh/known_hosts",
      "10.13.0.50 ssh-ed25519 AAAAC3NzaC1lZDI1NTE5AAAAIDecoyHostKeyForBackupServer\ngithub.com ssh-ed25519 AAAAC3NzaC1lZDI1NTE5AAAAIOMqqnkVzrm0SdG6UOoqKLsabgH5C9okWi0dh2l9GKJl",
    )
    ∷ (
      "/home/admin/.ssh/authorized_keys",
      "ssh-rsa AAAAB3NzaC1yc2EAAAADAQABAAABgQDecoyAuthorizedKeyHoneypot admin@srv-web-01",
    )
    ∷ ("/home/admin/.ssh/id_rsa", fake_id_rsa)
    ∷ (
      "/home/admin/.ssh/id_rsa.pub",
      "ssh-rsa AAAAB3NzaC1yc2EAAAADAQABAAABgQDecoyPublicKeyHoneypot admin@srv-web-01",
    )
    ∷ (
      "/home/admin/.ssh/config",
      "Host backup\n  HostName 10.13.0.50\n  User admin\n  IdentityFile ~/.ssh/id_rsa\n",
    )
    ∷ (
      "/home/admin/Documents/passwords.txt",
      "grafana: admin / Gr@fana_2026\npostgres: appuser / S3cr3t_Pg_2026\nrouteur: admin / admin123\nwifi-bureau: M0nB3auR3seau!",
    )
    ∷ (
      "/home/admin/Documents/budget_2026.csv",
      "poste,montant\nlicences,12000\ninfra cloud,8400\nformations,3500",
    )
    ∷ (
      "/home/admin/Documents/rapport_secu.txt",
      "Audit interne T2 2026 : 3 vulnérabilités moyennes corrigées, MFA à généraliser, sauvegardes testées OK.",
    )
    ∷ ("/home/admin/Documents/contacts.csv", "nom,email,tel\nDupont,dupont@example.com,0601020304")
    ∷ (
      "/home/admin/Documents/meeting_notes.md",
      "# Réunion infra\n- migration PG\n- renouveler certifs",
    )
    ∷ ("/home/admin/projects/webapp/.env", fake_env)
    ∷ (
      "/home/admin/projects/webapp/docker-compose.yml",
      "services:\n  web:\n    build: .\n    ports: ['8000:8000']\n  db:\n    image: postgres:15\n",
    )
    ∷ (
      "/home/admin/projects/webapp/app.py",
      "from fastapi import FastAPI\napp = FastAPI()\n\n@app.get('/')\ndef root():\n    return {'status': 'ok'}\n",
    )
    ∷ (
      "/home/admin/projects/webapp/README.md",
      "# webapp\nApplication interne. `docker compose up`.",
    )
    ∷ (
      "/home/admin/projects/webapp/requirements.txt",
      "fastapi==0.111.0\nuvicorn==0.30.0\npsycopg[binary]==3.2.1",
    )
    ∷ ("/home/admin/projects/api/main.py", "import sys\nprint('api service')\n")
    ∷ ("/home/admin/projects/api/config.yml", "host: 0.0.0.0\nport: 9000\nlog_level: info")
    ∷ ("/home/admin/projects/api/.env", "API_TOKEN=tok_live_decoy_honeypot_not_real_2026")
    ∷ (
      "/home/admin/projects/scripts/backup.sh",
      "#!/bin/bash\npg_dump -U appuser appdb | gzip > /backups/appdb_$(date +%F).sql.gz\n",
    )
    ∷ (
      "/home/admin/projects/scripts/deploy.sh",
      "#!/bin/bash\ngit pull && docker compose up -d --build\n",
    )
    ∷ (
      "/home/admin/projects/scripts/restore_db.sh",
      "#!/bin/bash\ngunzip -c \"$1\" | psql -U appuser appdb\n",
    )
    ∷ []

abbrev pub dirs : Dict (List String)
dirs =
    (
      "/",
      "bin" ∷ "boot" ∷ "dev" ∷ "etc" ∷ "home" ∷ "lib" ∷ "proc" ∷ "root" ∷ "sbin" ∷ "srv" ∷ "tmp"
          ∷ "usr" ∷ "var" ∷ [],
    )
    ∷ ("/etc", "passwd" ∷ "hostname" ∷ "os-release" ∷ "crontab" ∷ "ssh" ∷ "nginx" ∷ [])
    ∷ ("/etc/ssh", "sshd_config" ∷ [])
    ∷ ("/etc/nginx", "nginx.conf" ∷ [])
    ∷ ("/proc", "cpuinfo" ∷ "meminfo" ∷ "version" ∷ [])
    ∷ ("/var", "www" ∷ "log" ∷ [])
    ∷ ("/var/www", "html" ∷ [])
    ∷ ("/var/www/html", "index.html" ∷ "config.php" ∷ [])
    ∷ ("/var/log", "auth.log" ∷ "syslog" ∷ [])
    ∷ ("/home", "admin" ∷ [])
    ∷ (
      "/home/admin",
      "Documents" ∷ "projects" ∷ ".ssh" ∷ ".bash_history" ∷ ".bashrc" ∷ ".profile" ∷ ".gitconfig"
          ∷ ".viminfo" ∷ ".lesshst" ∷ ".sudo_as_admin_successful" ∷ "notes.txt" ∷ "todo.txt" ∷ [],
    )
    ∷ (
      "/home/admin/.ssh",
      "known_hosts" ∷ "authorized_keys" ∷ "id_rsa" ∷ "id_rsa.pub" ∷ "config" ∷ [],
    )
    ∷ (
      "/home/admin/Documents",
      "passwords.txt" ∷ "budget_2026.csv" ∷ "rapport_secu.txt" ∷ "contacts.csv" ∷ "meeting_notes.md"
          ∷ [],
    )
    ∷ ("/home/admin/projects", "webapp" ∷ "api" ∷ "scripts" ∷ [])
    ∷ (
      "/home/admin/projects/webapp",
      ".env" ∷ "docker-compose.yml" ∷ "app.py" ∷ "README.md" ∷ "requirements.txt" ∷ [],
    )
    ∷ ("/home/admin/projects/api", "main.py" ∷ "config.yml" ∷ ".env" ∷ [])
    ∷ ("/home/admin/projects/scripts", "backup.sh" ∷ "deploy.sh" ∷ "restore_db.sh" ∷ [])
    ∷ []
