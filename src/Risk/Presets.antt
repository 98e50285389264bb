-- ===== src/Risk/Presets.antt =====
-- The presets that risk.rs ships.
use Prim.Native.String.{String}
use text.Mathlib.Text.{◌==◌ as str_eq}
use remote_deck.Base.{◌≡◌, refl, Bool, true, false, Option, none, some, List, [], ◌∷◌, All, find}
use remote_deck.Risk.Analysis.{RiskLevel, l0, l2}

pub record BuiltinPreset : Type 0 where
  pub id : String
  pub name : String
  pub group : String
  pub command : String
  pub declared_risk : RiskLevel
  pub requires_pty : Bool
  pub requires_sudo : Bool
  pub dependency : Option String

abbrev pub builtin_presets : List BuiltinPreset
builtin_presets =
    record {
      id = "system-overview";
      name = "System overview";
      group = "System";
      command = "uname -a; hostname; whoami; uptime; lscpu | head -n 20";
      declared_risk = l0;
      requires_pty = false;
      requires_sudo = false;
      dependency = none;
    }
    ∷ record {
      id = "gpu-status";
      name = "GPU status";
      group = "Resources";
      command = "nvidia-smi";
      declared_risk = l0;
      requires_pty = false;
      requires_sudo = false;
      dependency = some "nvidia-smi";
    }
    ∷ record {
      id = "cpu-memory-processes";
      name = "CPU and memory processes";
      group = "Resources";
      command = "ps -eo pid,ppid,user,pcpu,pmem,state,etime,args --sort=-pcpu | head -n 31";
      declared_risk = l0;
      requires_pty = false;
      requires_sudo = false;
      dependency = none;
    }
    ∷ record {
      id = "disk-and-inodes";
      name = "Disk and inode usage";
      group = "Resources";
      command = "df -hT; printf '\\n'; df -ih";
      declared_risk = l0;
      requires_pty = false;
      requires_sudo = false;
      dependency = none;
    }
    ∷ record {
      id = "current-user-processes";
      name = "Current-user processes";
      group = "System";
      command = "ps -u \"$USER\" -o pid,ppid,pcpu,pmem,state,etime,args --sort=-pcpu";
      declared_risk = l0;
      requires_pty = false;
      requires_sudo = false;
      dependency = none;
    }
    ∷ record {
      id = "listeners";
      name = "Listening sockets";
      group = "Network";
      command = "ss -lntup";
      declared_risk = l0;
      requires_pty = false;
      requires_sudo = false;
      dependency = some "ss";
    }
    ∷ record {
      id = "git-status";
      name = "Git status";
      group = "Development";
      command = "git status --short --branch";
      declared_risk = l0;
      requires_pty = false;
      requires_sudo = false;
      dependency = some "git";
    }
    ∷ record {
      id = "slurm-queue";
      name = "Slurm queue";
      group = "Scheduler";
      command = "squeue -u \"$USER\"";
      declared_risk = l0;
      requires_pty = false;
      requires_sudo = false;
      dependency = some "squeue";
    }
    ∷ record {
      id = "btop";
      name = "btop";
      group = "Resources";
      command = "exec btop";
      declared_risk = l0;
      requires_pty = true;
      requires_sudo = false;
      dependency = some "btop";
    }
    ∷ record {
      id = "reboot-workstation";
      name = "Reboot workstation";
      group = "High risk";
      command = "systemctl reboot";
      declared_risk = l2;
      requires_pty = true;
      requires_sudo = true;
      dependency = some "systemctl";
    }
    ∷ []

unfoldable pub builtin_preset : String → Option BuiltinPreset
builtin_preset id = find (λ preset. str_eq preset.id id) builtin_presets

-- Every shipped preset is found under its id.
pub builtin_preset-id : All (λ p. builtin_preset p.id ≡ some p) builtin_presets
unfolding builtin_preset
builtin_preset-id =
    (refl, (refl, (refl, (refl, (refl, (refl, (refl, (refl, (refl, (refl, tt))))))))))
