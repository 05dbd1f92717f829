-- ===== src/Examples/Settings.antt =====
-- The configuration store at concrete inputs.
use xiaoai_agent.Prelude.{
  ◌≡◌, ◌⊎◌, refl, true, false, List, [], ◌∷◌, none, some, String, str_eq, if◌then◌else◌,
}
use xiaoai_agent.Config.Yaml.{Yaml, mapping, no_entries}
use xiaoai_agent.Config.Secret.{SecretUpdate, keep, replace}
use xiaoai_agent.Config.Update.Fields.{EditableConfig}
use xiaoai_agent.Config.Update.{
  ok, err, yaml_error, set_yaml, apply_mode, apply_secret, run_step, run_steps,
  apply_update_to_yaml,
}
use xiaoai_agent.Config.Update.Layout.{layout}
use xiaoai_agent.Config.Update.Whitelist.{AllApplied}
use xiaoai_agent.Config.Update.Applied.{apply_update_to_yaml-applied}
use xiaoai_agent.Config.Validate.{one_bits, run_checks, validate_update}
use xiaoai_agent.Config.Store.{
  Codec, Disk, Faults, ConfigStore, candidate_text, save_locked, save, schedule_restart,
}
use xiaoai_agent.Config.Store.Atomic.{AllDisks, Atomic, CandidateOf, Rejected, save_locked-Atomic}
use xiaoai_agent.Config.Store.History.{DiskLoads}
use xiaoai_agent.Config.Store.Success.{no_faults, replaced, save-succeeds}
use xiaoai_agent.Config.Restart.{
  Server, Op, save_op, restart_op, run_ops, request_restart, process_schedule_restart,
  claim_restart, spawn_worker,
}
use xiaoai_agent.Config.Restart.Once.{run_ops-shut}
use xiaoai_agent.Config.Restart.Files.{ops_trail, ops-Loads}

abbrev kept : SecretUpdate
kept = record { mode = keep; value = none }

abbrev new_key : SecretUpdate
new_key = record { mode = replace; value = some " key " }

abbrev pub update : EditableConfig SecretUpdate
update = record {
  runtime = record { acknowledge_text = "yes" ∷ []; session_idle_timeout_s = one_bits };
  voice = record {
    runtime = "native_qwen";
    qwen = record {
      url = "text";
      api_key = new_key;
      model = "text";
      voice = "text";
      turn_detection_threshold = one_bits;
      turn_detection_silence_duration_ms = 800;
      connect_timeout_s = one_bits;
      event_timeout_s = one_bits;
      tool_timeout_s = one_bits;
      max_tool_calls = 3;
      max_tool_iterations = 3;
    };
  };
  asr = record {
    provider = "open_ai";
    open_ai = record {
      base_url = "text";
      api_key = kept;
      model = "text";
      language = "text";
      prompt = "text";
      timeout_s = one_bits;
      retries = 3;
    };
    openai_realtime = record {
      base_url = "text";
      api_key = kept;
      model = "text";
      target_sample_rate = 3;
      chunk_ms = 3;
      timeout_s = one_bits;
      retries = 3;
    };
  };
  llm = record {
    base_url = "text";
    api_key = kept;
    model = "text";
    timeout_s = one_bits;
    max_tokens = 3;
    retries = 3;
    temperature = one_bits;
  };
  agent = record {
    timezone = "text";
    weather = record {
      qweather_url = kept;
      default_location = "text";
      ip_lookup_url = "text";
      timeout_s = one_bits;
    };
    web_search = record {
      enabled = true;
      tavily_url = "text";
      api_key = kept;
      timeout_s = one_bits;
      max_results = 5;
      search_depth = "text";
    };
    custom_instructions = "text";
  };
  home_assistant = record { enabled = true; url = "text"; token = kept; timeout_s = one_bits };
  music = record {
    enabled = true;
    provider = "navidrome";
    interruption_mode = "text";
    navidrome = record {
      base_url = "text";
      username = "text";
      password = kept;
      api_version = "text";
      timeout_s = one_bits;
    };
    netease = record {
      api_base_url = "text";
      login_mode = "text";
      account = "text";
      phone = "text";
      password = kept;
      md5_password = kept;
      default_level = "text";
      timeout_s = one_bits;
      login_on_start = true;
    };
  };
  airplay = record {
    enabled = true;
    name = "text";
    port = 5000;
    password = kept;
    interruption_mode = "text";
    duck_gain = one_bits;
  };
  led_enabled = true;
}

abbrev old_file : Yaml
old_file = mapping no_entries

unfoldable written : Yaml
unfolding apply_update_to_yaml run_steps run_step set_yaml apply_secret apply_mode
written = elim (apply_update_to_yaml update old_file) [ ok out ↦ out | err e ↦ old_file ]

applies : apply_update_to_yaml update old_file ≡ ok written
unfolding apply_update_to_yaml written run_steps run_step set_yaml apply_secret apply_mode
applies = refl

apply_update_to_yaml-applied_example : AllApplied old_file written (layout update)
apply_update_to_yaml-applied_example = apply_update_to_yaml-applied update old_file applies

valid : validate_update update ≡ ok tt
unfolding validate_update run_checks
valid = refl

-- A reader and a printer that know two texts, and a loader that takes all but the empty one.
abbrev codec : Codec String
codec = record {
  parse = λ text. if str_eq text "broken" then err yaml_error else ok old_file;
  print = λ root. ok "printed";
  load = λ text. if str_eq text "" then err yaml_error else ok text;
}

abbrev disk : Disk
disk = record { formal = some "first"; temp = none; backup = none }

-- The copy to the backup fails half way.
abbrev torn_copy : Faults
torn_copy = record no_faults { copy_torn = some (some "fir") }

save_locked-Atomic_example :
    Rejected disk (save_locked codec torn_copy update disk)
    ⊎ ((text : String) × CandidateOf codec update disk text
        × Atomic codec disk.formal text (save_locked codec torn_copy update disk))
save_locked-Atomic_example = save_locked-Atomic codec torn_copy update disk

made : candidate_text codec update "first" ≡ ok "printed"
unfolding candidate_text apply_update_to_yaml run_steps run_step set_yaml apply_secret apply_mode
made = refl

candidate : CandidateOf codec update disk "printed"
candidate = (valid, ("first", refl, made))

abbrev store : ConfigStore
store = record { disk = disk; restart_scheduled = false; restart_required = false }

save-succeeds_example : save codec no_faults update store ≡ (
  record { disk = replaced disk "printed"; restart_scheduled = false; restart_required = true },
  ok "printed",
)
save-succeeds_example =
    save-succeeds codec "printed" "printed" update store refl candidate refl refl

abbrev server : Server
server = record { store = store; restarter = record { scheduled = false; workers = 0 } }

abbrev requests : List Op
requests =
    save_op no_faults update
    ∷ save_op torn_copy update
    ∷ restart_op false
    ∷ restart_op true
    ∷ save_op no_faults update
    ∷ []

ops-Loads_example : AllDisks (DiskLoads codec) (ops_trail codec requests server)
ops-Loads_example = ops-Loads codec requests server ("first", "first", refl, refl)

granted : (request_restart true server).1 ≡ none
unfolding request_restart schedule_restart process_schedule_restart claim_restart spawn_worker
granted = refl

run_ops-shut_example :
    run_ops codec requests (request_restart true server).0 ≡ (request_restart true server).0
run_ops-shut_example = run_ops-shut codec requests true server granted
