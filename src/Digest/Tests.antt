-- ===== src/Digest/Tests.antt =====
-- Digests in a world whose sockets split the bytes.
use t4p4s_ma.Common.{[], ◌∷◌, replicate, negsuc}
use t4p4s_ma.Memory.{Returns, pure, ◌>>=◌}
use t4p4s_ma.Fifo.{Fifo}
use t4p4s_ma.Controller.Parts.{mac_bytes}
use t4p4s_ma.Controller.Session.{AllConvey}
use t4p4s_ma.Controller.Tests.{world, world-IsSteady, mac}
use t4p4s_ma.Controller.Learn.{dhf, l2fwd_digests, psa_digests}
use t4p4s_ma.Controller.L2fwd.Delivery.{dmac_order, smac_order}
use t4p4s_ma.Controller.PsaL2fwd.Delivery.{psa_dmac_order, psa_smac_order}
use t4p4s_ma.Digest.{extern_digest_pack}
use t4p4s_ma.Digest.Report.{report, reported, packed, mac_learn_lem, extern_digest_pack_lem}

abbrev queue : Fifo
queue = record { queue = replicate 1024 0; head = 0; size = 0; tail = negsuc 0 }

mac_learn_lem_example :
    Returns
      (λ sent m. AllConvey world sent (dmac_order 3 mac ∷ smac_order mac ∷ []))
      (reported world
        (report "mac_learn_digest" ((mac_bytes mac, 48) ∷ (3 ∷ 0 ∷ [], 16) ∷ []) queue)
        (dhf l2fwd_digests 0))
mac_learn_lem_example = mac_learn_lem world world mac 3 0 queue world-IsSteady world-IsSteady

-- The cell held ones, so the address that is learned is d2:01:01:01:01:01.
extern_digest_pack_lem_example :
    Returns
      (λ sent m. AllConvey world sent (
        psa_dmac_order 3 (packed mac world.buffer) ∷ psa_smac_order (packed mac world.buffer) ∷ []))
      (reported world
        (extern_digest_pack (mac_bytes mac) (3 ∷ 0 ∷ 0 ∷ 0 ∷ []) 1 queue >>= λ _. pure tt)
        (dhf psa_digests 0))
extern_digest_pack_lem_example =
    extern_digest_pack_lem world world mac 3 0 0 0 1 queue world-IsSteady world-IsSteady
