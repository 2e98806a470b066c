-- ===== src/Tests/Samples.antt =====
-- A connection between two DLP ports whose device cuts up what it delivers and takes.
use coldsync.Base.{ℕ, false, none, List, [], ◌∷◌}
use coldsync.Conn.{PConnection, Device, SlpAddr, upto, noerr, up, stack_net}

-- DLP speaks PADP, protocol 2, on port 3.
abbrev pub dlp_addr : SlpAddr
dlp_addr = record { protocol = 2; port = 3 }

abbrev device_with : List ℕ → Device
device_with input = record {
  input = input;
  output = [];
  reads = upto 0 ∷ upto 5 ∷ upto 1 ∷ [];
  writes = upto 2 ∷ upto 0 ∷ [];
  selects = [];
  allocs = [];
}

abbrev pub connection_with : List ℕ → PConnection
connection_with input = record {
  device = device_with input;
  palm_errno = noerr;
  status = up;
  emulate_palm = false;
  protocol = stack_net;
  whosonfirst = false;
  slp = record {
    local_addr = dlp_addr;
    remote_addr = dlp_addr;
    inbuf_len = 4;
    outbuf_len = 2;
    last_xid = 0;
  };
  padp = record { xid = 7; read_timeout = 30; inbuf = none; inbuf_len = 0 };
  dlp = record { argv_len = 1; resp = record { id = 0; argc = 0; error = 0 } };
  net = record { xid = 0xfe };
}
