-- ===== src/App/Frame/Tests.antt =====
-- The theorem on the frames of the window at a concrete frame: the first one, in which the user
-- connects the simulated sampler and then follows the plot.
use ocdscope.Prelude.{◌+◌, ◌*◌, true, false, none, some, ok, [], ◌∷◌}
use ocdscope.Text.{codes}
use ocdscope.Float.{Floats, IsIeee}
use ocdscope.Float.Sample.{numbers, numbers-IsIeee}
use ocdscope.Export.{ExportError}
use ocdscope.App.{Message, Handle, text, simulated}
use ocdscope.App.Frame.{Input}

-- Numbers whose products are 100 more, so that 10 can be taken from every time.
abbrev late : Floats
late = record numbers {
  mul =
      λ a b. elim a [ none ↦ none | some x ↦ elim b [ none ↦ none | some y ↦ some (x * y + 100) ] ];
}

abbrev late-IsIeee : IsIeee late
late-IsIeee = record {
  IsNumber = numbers-IsIeee.IsNumber;
  lt_or_ge = numbers-IsIeee.lt_or_ge;
  not_le = numbers-IsIeee.not_le;
  lt→le = numbers-IsIeee.lt→le;
  le_trans = numbers-IsIeee.le_trans;
}

abbrev handle : Handle
handle = record { available_signals = (0, codes "a") ∷ [] }

abbrev first_frame : Input late
first_frame = record {
  inbox = record { notifications = []; sampled = (5, (0, some 1) ∷ []) ∷ [] };
  clicks = record { connect = false; disconnect = false; to_pause = true; to_resume = false };
  capacities = λ id. 4;
  picked = some (some (codes "TXT"));
  stop_passes = true;
  controls = record {
    reset_clicked = false;
    follow_clicked = true;
    follow_time = some 1;
    truncate_clicked = false;
    truncate_at = some 10;
  };
  edits = [];
  offer_clicked = true;
  plot = record { x_min = some 2; x_max = some 6; clicked = false };
  adding = record { address = 3; cancelled = false; added = false };
  connecting = record {
    method = simulated;
    settings = record {
      new_telnet_address = [];
      new_gdb_address = [];
      picked_elf = none;
      new_rate = some 50;
      new_interval = 2;
      relative_clicked = true;
    };
    cancelled = false;
    connected = true;
    starts = record {
      fake = λ rate. handle;
      memory = λ a b rate elf. ok handle;
      from_rtt = λ a interval. ok handle;
    };
  };
  closed = true;
}

abbrev export_text : ExportError → Message
export_text _ = text []
