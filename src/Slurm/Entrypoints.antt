-- ===== src/Slurm/Entrypoints.antt =====
-- The scripts that the containers run: genControllerEntrypoint and genWorkerEntrypoint of
-- pkg/controller/cluster_schema/slurm_schema/configmap.go.
use Prim.Native.String.{◌++◌}
use kubecluster.Prelude.{String}
use kubecluster.Slurm.{slurm_conf_dir, spool_dir}

abbrev entrypoint_shell_template : String
entrypoint_shell_template =
    "#!/bin/bash\n\naddUserIfNotExist(){\n  if id -u \"$1\" >/dev/null 2>&1; then\n     echo \"$1 exists\"\n  else\n     echo \"create user $1\"\n     useradd \"$1\"\n  fi\n}\naddUserIfNotExist slurm\naddUserIfNotExist munge\n\nmkdir -p /etc/munge\nchown  munge:munge /etc/munge\n# shellcheck disable=SC2024\n\n##cp  relative cmd\n\n# shellcheck disable=SC2162\nread -p \"please input slurm relative cmd source dir :\" cmddir\n\nif [ ! -d \"$cmddir\" ]; then\n   echo \"$cmddir not exist, skip cp  slurm relative cmd\"\n   exit 0;\nfi\n\n\ncp  -p -L \"$cmddir\"/slurm/bin/* /usr/bin\ncp  -p -L \"$cmddir\"/slurm/sbin/* /usr/sbin\ncp  -p -L \"$cmddir\"/munge/bin/* /usr/bin\ncp  -p -L \"$cmddir\"/munge/sbin/* /usr/sbin\nif [ ! -e /etc/munge/munge.key ];then\n  cp  -p -L \"$cmddir\"/munge/munge/munge.key /etc/munge/munge.key\nfi\n#dd if=/dev/urandom bs=1 count=1024 > /etc/munge/munge.key\n\n# shellcheck disable=SC2024\necho \"$cmddir/slurm/lib\"  >> /etc/ld.so.conf.d/slurm-x86_64.conf\n# shellcheck disable=SC2024\necho \"$cmddir/slurm/lib/slurm\" >> /etc/ld.so.conf.d/slurm-x86_64.conf\n# shellcheck disable=SC2024\necho \"$cmddir/munge/lib\" >>  /etc/ld.so.conf.d/munge-x86_64.conf\n\nldconfig\n\nchown munge:munge /etc/munge/munge.key\nchmod 400 /etc/munge/munge.key\nmkdir -p /var/lib/munge\nmkdir -p /var/run/munge\nmkdir -p /var/log/munge\nchown -R munge:munge /var/lib/munge\nchown -R munge:munge /var/run/munge\nchown -R munge:munge /var/log/munge\n\necho \"configure completed\""

-- fmt.Sprintf("%s\n%s\n", shell, command)
abbrev pub and_line : String → String → String
and_line shell command = shell ++ "\n" ++ command ++ "\n"

abbrev gen_grep_command : String
gen_grep_command =
    ">> /tmp/gres.conf && for (( i=0; i < 8; i++ )) do if [ -a /dev/nvidia${i} ]; then echo \"Name=gpu Type=gpu File=/dev/nvidia${i}\" >> /tmp/gres.conf; fi ; done"

abbrev clear_spool : String
clear_spool =
    "echo \"clear spool-cluster-name: " ++ spool_dir ++ "/clustername \" && rm -rf " ++ spool_dir
    ++ "/clustername"

abbrev munged_cmd : String
munged_cmd =
    "echo \"starting munged\" && munged -f --key-file /etc/munge/munge.key --log-file /var/log/munge/munged.log --pid-file /var/run/munge/munged.pid --seed-file /var/lib/munge/munge.seed --socket /var/run/munge/munge.socket.2 && echo \"munged started\" "

-- What the two scripts share: they differ in how long they wait and in what they start.
abbrev entrypoint : String → String → String
entrypoint sleep start =
    and_line
      (and_line
        (and_line
          (and_line
            (and_line entrypoint_shell_template
              (gen_grep_command ++ " && " ++ "cp /tmp/gres.conf " ++ slurm_conf_dir ++ " "))
            sleep)
          clear_spool)
        munged_cmd)
      start

abbrev pub gen_controller_entrypoint : String
gen_controller_entrypoint =
    entrypoint "sleep 5" "echo \"starting slurmctld\" && slurmctld -D && echo \"slurmctld started\""

abbrev pub gen_worker_entrypoint : String
gen_worker_entrypoint = entrypoint "sleep 30" "echo \"starting slurmd\" && slurmd -D "
