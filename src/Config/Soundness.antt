-- ===== src/Config/Soundness.antt =====
-- `ValidateForPlatform` and the description of a valid configuration.
use credimi_runner.Prelude.{◌≤◌, String, arith, Distinct-nil}
use credimi_runner.Config.{Config}
use credimi_runner.Config.Checks.{Outside}
use credimi_runner.Config.Devices.{
  Checked, accepted, rejected, nothing_seen, is_emulator, is_simulator,
}
use credimi_runner.Config.Validate.{validate_counts, validate_for_platform}
use credimi_runner.Config.Valid.{IsValid, ids, names, addresses, count}
use credimi_runner.Config.DeviceRules.{Visits}
use credimi_runner.Config.DeviceLoop.{Ends, LoopFits, check_devices-Ends}
use credimi_runner.Config.TableRules.{Decides, and_then, HeadFits, head_iff}

module _ (out : Outside) (goos : String) (cfg : Config) where
  -- The checks before the loop, and what the loop asks of the devices and counts.
  record-IsValid :
      HeadFits out cfg
      → LoopFits goos cfg.runner.id cfg.devices nothing_seen
      → count is_emulator cfg.devices ≤ 1
      → count is_simulator cfg.devices ≤ 1
      → IsValid out goos cfg
  record-IsValid
        (
          h0,
          (
            h1,
            (
              h2,
              (
                h3,
                (
                  h4,
                  (
                    h5,
                    (
                      h6,
                      (h7, (h8, (h9, (h10, (h11, (h12, (h13, (h14, (h15, (h16, (h17, u))))))))))),
                    ),
                  ),
                ),
              ),
            ),
          ),
        )
        l e m =
      record {
        schema = h0;
        runner_id = h1;
        canonical = h2;
        runner_name = h3;
        organization = h4;
        within = h5;
        url_given = h6;
        url_absolute = h7;
        auth = h8;
        temporal = h9;
        api_listen = h10;
        dashboard_listen = h11;
        durations = h12;
        retention = h13;
        state_dir = h14;
        state_dir_absolute = h15;
        exposure = h16;
        android = h17;
        devices = l.0;
        ids_differ = (Distinct-nil (ids cfg.devices)).0 l.1;
        names_differ = (Distinct-nil (names cfg.devices)).0 l.2;
        addresses_differ = (Distinct-nil (addresses cfg.devices)).0 l.3;
        one_emulator = e;
        one_simulator = m;
      }

  head_of : IsValid out goos cfg → HeadFits out cfg
  head_of v = (
    v.schema,
    (
      v.runner_id,
      (
        v.canonical,
        (
          v.runner_name,
          (
            v.organization,
            (
              v.within,
              (
                v.url_given,
                (
                  v.url_absolute,
                  (
                    v.auth,
                    (
                      v.temporal,
                      (
                        v.api_listen,
                        (
                          v.dashboard_listen,
                          (
                            v.durations,
                            (
                              v.retention,
                              (v.state_dir, (v.state_dir_absolute, (v.exposure, (v.android, tt)))),
                            ),
                          ),
                        ),
                      ),
                    ),
                  ),
                ),
              ),
            ),
          ),
        ),
      ),
    ),
  )

  loop_of : IsValid out goos cfg → LoopFits goos cfg.runner.id cfg.devices nothing_seen
  loop_of v = (
    v.devices,
    (Distinct-nil (ids cfg.devices)).1 v.ids_differ,
    (Distinct-nil (names cfg.devices)).1 v.names_differ,
    (Distinct-nil (addresses cfg.devices)).1 v.addresses_differ,
  )

  -- The answer after the loop.
  counts_iff :
      (r : Checked)
      → Ends goos cfg.runner.id cfg.devices nothing_seen r
      → Decides (validate_counts r) (
          LoopFits goos cfg.runner.id cfg.devices nothing_seen
          × (count is_emulator cfg.devices ≤ 1)
          × (count is_simulator cfg.devices ≤ 1))
  counts_iff (accepted t) h =
      let e = h.1 in
      let m = h.2 in
      let counts : Decides (validate_counts (accepted t)) ((t.emulators ≤ 1) × (t.simulators ≤ 1)) =
        ground arith in
      (
        λ q. let c = counts.0 q in (h.0, omega (arith, e, c.0), omega (arith, m, c.1)),
        λ q. counts.1 (omega (arith, e, q.1), omega (arith, m, q.2)),
      )
  counts_iff (rejected x) h = (λ q. cc, λ q. absurd (h q.0))

  -- `ValidateForPlatform` returns no error exactly for the configurations that `IsValid` describes:
  -- each table is complete and consistent, each device has the one subtable of its type, which fits
  -- the platform, no two devices share an ID, a name or the text that the validation compares as
  -- their address, and there is at most one emulator and one simulator. That text is the serial of
  -- a phone on USB, the IP of a phone on Wi-Fi exactly as it is written, spaces included, joined
  -- with its trimmed port or 5555, and the host of a redroid device joined with its ADB port. The order in which the entries of a map are visited plays no part.
  pub validate_iff :
      Visits out → Decides (validate_for_platform out cfg goos) (IsValid out goos cfg)
  unfolding validate_for_platform
  validate_iff visits =
      let head = head_iff out cfg visits in
      let loop = check_devices-Ends goos cfg.runner.id out visits 0 cfg.devices nothing_seen in
      let both = and_then _ _ head (counts_iff _ loop) in
      (
        λ q. let b = both.0 q in record-IsValid b.0 b.1.0 b.1.1 b.1.2,
        λ v. both.1 (head_of v, (loop_of v, v.one_emulator, v.one_simulator)),
      )
