-- ===== src/Dev/Reset.antt =====
-- `dev_reset` and `net_reset`: every device register of a machine that was just switched on.
use tortoise.Base.{false, if◌then◌else◌}
use tortoise.Machine.{DiskUnit, Dev, Net}
use tortoise.Machine.Monad.{M, Void, ◌>>◌, modify_dev, modify_net, modify_host}
use tortoise.Dev.Bus.{schedule}

abbrev pub idle_unit : DiskUnit
idle_unit = record { d_sector = 0; d_count = 0; d_addr = 0; d_status = 0; d_cmd = 0; d_done = 0 }

-- `dev_next` is set by `schedule`.
unfoldable pub reset_dev : Dev → Dev
reset_dev d = record d {
  legacy_ticks = 0;
  t_count = 0;
  t_period = 0;
  t_ctrl = 0;
  t_prescale = 1000;
  t_frac = 0;
  t_phase = 0;
  t_last = 0;
  u_ctrl = 0;
  disk = λ _. idle_unit;
  poll_at = 1000;
  pic_pending = 0;
  pic_mask = 0;
}

-- The MAC address and the backend are the configuration and stay.
unfoldable pub net_reset : Net → Net
net_reset n = record n {
  ctrl = 0;
  status = 0;
  tx_addr = 0;
  tx_len = 0;
  rx_addr = 0;
  rx_len = 0;
  stx = 0;
  srx = 0;
  sdrop = 0;
  tx_pending = false;
  tx_done = 0;
  txlen = 0;
  txbuf = λ _. 0;
  q = λ _. record { len = 0; d = λ _. 0 };
  qh = 0;
  qn = 0;
}

-- The disk in memory is cleared, an image file is not.
unfoldable pub dev_reset : M Void
unfolding reset_dev net_reset
dev_reset = do
  modify_dev reset_dev
  modify_host (λ h. record h { disk_data = λ u i. if h.disk_file u then h.disk_data u i else 0 })
  modify_net net_reset
  schedule
