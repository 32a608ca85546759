-- ===== src/Register/Stat.antt =====
-- The status registers of a CMAC (onic_register.h).
use onic_driver.Base.{ℕ, List, [], ◌∷◌}

-- The status registers behind `CMAC_OFFSET`, in the order of the file.
pub data StatReg : Type 0 where
  stat_tx_status stat_rx_status stat_status_1 stat_rx_block_lock stat_rx_lane_sync : StatReg
  stat_rx_lane_sync_err stat_rx_am_err stat_rx_am_len_err stat_rx_am_repeat_err : StatReg
  stat_rx_pcsl_demuxed stat_rx_pcs_lane_num_1 stat_rx_pcs_lane_num_2 stat_rx_pcs_lane_num_3 :
      StatReg
  stat_rx_pcs_lane_num_4 stat_rx_bip_override stat_tx_otn_status stat_an_status stat_an_ability :
      StatReg
  stat_an_link_ctl_1 stat_lt_status_1 stat_lt_status_2 stat_lt_status_3 stat_lt_status_4 : StatReg
  stat_lt_coef_0 stat_lt_coef_1 stat_an_link_ctl_2 stat_rsfec_status stat_rsfec_lane_mapping :
      StatReg
  stat_tx_otn_rsfec_status tick stat_cycle_count stat_rx_bip_err_0 stat_rx_bip_err_1 : StatReg
  stat_rx_bip_err_2 stat_rx_bip_err_3 stat_rx_bip_err_4 stat_rx_bip_err_5 stat_rx_bip_err_6 :
      StatReg
  stat_rx_bip_err_7 stat_rx_bip_err_8 stat_rx_bip_err_9 stat_rx_bip_err_10 stat_rx_bip_err_11 :
      StatReg
  stat_rx_bip_err_12 stat_rx_bip_err_13 stat_rx_bip_err_14 stat_rx_bip_err_15 : StatReg
  stat_rx_bip_err_16 stat_rx_bip_err_17 stat_rx_bip_err_18 stat_rx_bip_err_19 : StatReg
  stat_rx_framing_err_0 stat_rx_framing_err_1 stat_rx_framing_err_2 stat_rx_framing_err_3 : StatReg
  stat_rx_framing_err_4 stat_rx_framing_err_5 stat_rx_framing_err_6 stat_rx_framing_err_7 : StatReg
  stat_rx_framing_err_8 stat_rx_framing_err_9 stat_rx_framing_err_10 stat_rx_framing_err_11 :
      StatReg
  stat_rx_framing_err_12 stat_rx_framing_err_13 stat_rx_framing_err_14 stat_rx_framing_err_15 :
      StatReg
  stat_rx_framing_err_16 stat_rx_framing_err_17 stat_rx_framing_err_18 stat_rx_framing_err_19 :
      StatReg
  stat_rx_bad_code stat_tx_frame_error stat_tx_total_pkts stat_tx_total_good_pkts : StatReg
  stat_tx_total_bytes stat_tx_total_good_bytes stat_tx_pkt_64_bytes stat_tx_pkt_65_127_bytes :
      StatReg
  stat_tx_pkt_128_255_bytes stat_tx_pkt_256_511_bytes stat_tx_pkt_512_1023_bytes : StatReg
  stat_tx_pkt_1024_1518_bytes stat_tx_pkt_1519_1522_bytes stat_tx_pkt_1523_1548_bytes : StatReg
  stat_tx_pkt_1549_2047_bytes stat_tx_pkt_2048_4095_bytes stat_tx_pkt_4096_8191_bytes : StatReg
  stat_tx_pkt_8192_9215_bytes stat_tx_pkt_large stat_tx_pkt_small stat_tx_bad_fcs : StatReg
  stat_tx_unicast stat_tx_multicast stat_tx_broadcast stat_tx_vlan stat_tx_pause : StatReg
  stat_tx_user_pause stat_rx_total_pkts stat_rx_total_good_pkts stat_rx_total_bytes : StatReg
  stat_rx_total_good_bytes stat_rx_pkt_64_bytes stat_rx_pkt_65_127_bytes : StatReg
  stat_rx_pkt_128_255_bytes stat_rx_pkt_256_511_bytes stat_rx_pkt_512_1023_bytes : StatReg
  stat_rx_pkt_1024_1518_bytes stat_rx_pkt_1519_1522_bytes stat_rx_pkt_1523_1548_bytes : StatReg
  stat_rx_pkt_1549_2047_bytes stat_rx_pkt_2048_4095_bytes stat_rx_pkt_4096_8191_bytes : StatReg
  stat_rx_pkt_8192_9215_bytes stat_rx_pkt_large stat_rx_pkt_small stat_rx_undersize : StatReg
  stat_rx_fragment stat_rx_oversize stat_rx_toolong stat_rx_jabber stat_rx_bad_fcs : StatReg
  stat_rx_pkt_bad_fcs stat_rx_stomped_fcs stat_rx_unicast stat_rx_multicast stat_rx_broadcast :
      StatReg
  stat_rx_vlan stat_rx_pause stat_rx_user_pause stat_rx_inrangeerr stat_rx_truncated : StatReg
  stat_otn_tx_jabber stat_otn_tx_oversize stat_otn_tx_undersize stat_otn_tx_toolong : StatReg
  stat_otn_tx_fragment stat_otn_tx_pkt_bad_fcs stat_otn_tx_stomped_fcs stat_otn_tx_bad_code :
      StatReg
  stat_rx_rsfec_corrected_cw_inc stat_rx_rsfec_uncorrected_cw_inc stat_rx_rsfec_err_count0_inc :
      StatReg
  stat_rx_rsfec_err_count1_inc stat_rx_rsfec_err_count2_inc stat_rx_rsfec_err_count3_inc : StatReg
  stat_rx_rsfec_cw_inc : StatReg

unfoldable pub stat_reg : StatReg → ℕ
stat_reg StatReg.stat_tx_status = 512
stat_reg StatReg.stat_rx_status = 516
stat_reg StatReg.stat_status_1 = 520
stat_reg StatReg.stat_rx_block_lock = 524
stat_reg StatReg.stat_rx_lane_sync = 528
stat_reg StatReg.stat_rx_lane_sync_err = 532
stat_reg StatReg.stat_rx_am_err = 536
stat_reg StatReg.stat_rx_am_len_err = 540
stat_reg StatReg.stat_rx_am_repeat_err = 544
stat_reg StatReg.stat_rx_pcsl_demuxed = 548
stat_reg StatReg.stat_rx_pcs_lane_num_1 = 552
stat_reg StatReg.stat_rx_pcs_lane_num_2 = 556
stat_reg StatReg.stat_rx_pcs_lane_num_3 = 560
stat_reg StatReg.stat_rx_pcs_lane_num_4 = 564
stat_reg StatReg.stat_rx_bip_override = 568
stat_reg StatReg.stat_tx_otn_status = 572
stat_reg StatReg.stat_an_status = 600
stat_reg StatReg.stat_an_ability = 604
stat_reg StatReg.stat_an_link_ctl_1 = 608
stat_reg StatReg.stat_lt_status_1 = 612
stat_reg StatReg.stat_lt_status_2 = 616
stat_reg StatReg.stat_lt_status_3 = 620
stat_reg StatReg.stat_lt_status_4 = 624
stat_reg StatReg.stat_lt_coef_0 = 628
stat_reg StatReg.stat_lt_coef_1 = 632
stat_reg StatReg.stat_an_link_ctl_2 = 636
stat_reg StatReg.stat_rsfec_status = 4100
stat_reg StatReg.stat_rsfec_lane_mapping = 4120
stat_reg StatReg.stat_tx_otn_rsfec_status = 4164
stat_reg StatReg.tick = 688
stat_reg StatReg.stat_cycle_count = 696
stat_reg StatReg.stat_rx_bip_err_0 = 704
stat_reg StatReg.stat_rx_bip_err_1 = 712
stat_reg StatReg.stat_rx_bip_err_2 = 720
stat_reg StatReg.stat_rx_bip_err_3 = 728
stat_reg StatReg.stat_rx_bip_err_4 = 736
stat_reg StatReg.stat_rx_bip_err_5 = 744
stat_reg StatReg.stat_rx_bip_err_6 = 752
stat_reg StatReg.stat_rx_bip_err_7 = 760
stat_reg StatReg.stat_rx_bip_err_8 = 768
stat_reg StatReg.stat_rx_bip_err_9 = 776
stat_reg StatReg.stat_rx_bip_err_10 = 784
stat_reg StatReg.stat_rx_bip_err_11 = 792
stat_reg StatReg.stat_rx_bip_err_12 = 800
stat_reg StatReg.stat_rx_bip_err_13 = 808
stat_reg StatReg.stat_rx_bip_err_14 = 816
stat_reg StatReg.stat_rx_bip_err_15 = 824
stat_reg StatReg.stat_rx_bip_err_16 = 832
stat_reg StatReg.stat_rx_bip_err_17 = 840
stat_reg StatReg.stat_rx_bip_err_18 = 848
stat_reg StatReg.stat_rx_bip_err_19 = 856
stat_reg StatReg.stat_rx_framing_err_0 = 864
stat_reg StatReg.stat_rx_framing_err_1 = 872
stat_reg StatReg.stat_rx_framing_err_2 = 880
stat_reg StatReg.stat_rx_framing_err_3 = 888
stat_reg StatReg.stat_rx_framing_err_4 = 896
stat_reg StatReg.stat_rx_framing_err_5 = 904
stat_reg StatReg.stat_rx_framing_err_6 = 912
stat_reg StatReg.stat_rx_framing_err_7 = 920
stat_reg StatReg.stat_rx_framing_err_8 = 928
stat_reg StatReg.stat_rx_framing_err_9 = 936
stat_reg StatReg.stat_rx_framing_err_10 = 944
stat_reg StatReg.stat_rx_framing_err_11 = 952
stat_reg StatReg.stat_rx_framing_err_12 = 960
stat_reg StatReg.stat_rx_framing_err_13 = 968
stat_reg StatReg.stat_rx_framing_err_14 = 976
stat_reg StatReg.stat_rx_framing_err_15 = 984
stat_reg StatReg.stat_rx_framing_err_16 = 992
stat_reg StatReg.stat_rx_framing_err_17 = 1000
stat_reg StatReg.stat_rx_framing_err_18 = 1008
stat_reg StatReg.stat_rx_framing_err_19 = 1016
stat_reg StatReg.stat_rx_bad_code = 1048
stat_reg StatReg.stat_tx_frame_error = 1112
stat_reg StatReg.stat_tx_total_pkts = 1280
stat_reg StatReg.stat_tx_total_good_pkts = 1288
stat_reg StatReg.stat_tx_total_bytes = 1296
stat_reg StatReg.stat_tx_total_good_bytes = 1304
stat_reg StatReg.stat_tx_pkt_64_bytes = 1312
stat_reg StatReg.stat_tx_pkt_65_127_bytes = 1320
stat_reg StatReg.stat_tx_pkt_128_255_bytes = 1328
stat_reg StatReg.stat_tx_pkt_256_511_bytes = 1336
stat_reg StatReg.stat_tx_pkt_512_1023_bytes = 1344
stat_reg StatReg.stat_tx_pkt_1024_1518_bytes = 1352
stat_reg StatReg.stat_tx_pkt_1519_1522_bytes = 1360
stat_reg StatReg.stat_tx_pkt_1523_1548_bytes = 1368
stat_reg StatReg.stat_tx_pkt_1549_2047_bytes = 1376
stat_reg StatReg.stat_tx_pkt_2048_4095_bytes = 1384
stat_reg StatReg.stat_tx_pkt_4096_8191_bytes = 1392
stat_reg StatReg.stat_tx_pkt_8192_9215_bytes = 1400
stat_reg StatReg.stat_tx_pkt_large = 1408
stat_reg StatReg.stat_tx_pkt_small = 1416
stat_reg StatReg.stat_tx_bad_fcs = 1464
stat_reg StatReg.stat_tx_unicast = 1488
stat_reg StatReg.stat_tx_multicast = 1496
stat_reg StatReg.stat_tx_broadcast = 1504
stat_reg StatReg.stat_tx_vlan = 1512
stat_reg StatReg.stat_tx_pause = 1520
stat_reg StatReg.stat_tx_user_pause = 1528
stat_reg StatReg.stat_rx_total_pkts = 1544
stat_reg StatReg.stat_rx_total_good_pkts = 1552
stat_reg StatReg.stat_rx_total_bytes = 1560
stat_reg StatReg.stat_rx_total_good_bytes = 1568
stat_reg StatReg.stat_rx_pkt_64_bytes = 1576
stat_reg StatReg.stat_rx_pkt_65_127_bytes = 1584
stat_reg StatReg.stat_rx_pkt_128_255_bytes = 1592
stat_reg StatReg.stat_rx_pkt_256_511_bytes = 1600
stat_reg StatReg.stat_rx_pkt_512_1023_bytes = 1608
stat_reg StatReg.stat_rx_pkt_1024_1518_bytes = 1616
stat_reg StatReg.stat_rx_pkt_1519_1522_bytes = 1624
stat_reg StatReg.stat_rx_pkt_1523_1548_bytes = 1632
stat_reg StatReg.stat_rx_pkt_1549_2047_bytes = 1640
stat_reg StatReg.stat_rx_pkt_2048_4095_bytes = 1648
stat_reg StatReg.stat_rx_pkt_4096_8191_bytes = 1656
stat_reg StatReg.stat_rx_pkt_8192_9215_bytes = 1664
stat_reg StatReg.stat_rx_pkt_large = 1672
stat_reg StatReg.stat_rx_pkt_small = 1680
stat_reg StatReg.stat_rx_undersize = 1688
stat_reg StatReg.stat_rx_fragment = 1696
stat_reg StatReg.stat_rx_oversize = 1704
stat_reg StatReg.stat_rx_toolong = 1712
stat_reg StatReg.stat_rx_jabber = 1720
stat_reg StatReg.stat_rx_bad_fcs = 1728
stat_reg StatReg.stat_rx_pkt_bad_fcs = 1736
stat_reg StatReg.stat_rx_stomped_fcs = 1744
stat_reg StatReg.stat_rx_unicast = 1752
stat_reg StatReg.stat_rx_multicast = 1760
stat_reg StatReg.stat_rx_broadcast = 1768
stat_reg StatReg.stat_rx_vlan = 1776
stat_reg StatReg.stat_rx_pause = 1784
stat_reg StatReg.stat_rx_user_pause = 1792
stat_reg StatReg.stat_rx_inrangeerr = 1800
stat_reg StatReg.stat_rx_truncated = 1808
stat_reg StatReg.stat_otn_tx_jabber = 1816
stat_reg StatReg.stat_otn_tx_oversize = 1824
stat_reg StatReg.stat_otn_tx_undersize = 1832
stat_reg StatReg.stat_otn_tx_toolong = 1840
stat_reg StatReg.stat_otn_tx_fragment = 1848
stat_reg StatReg.stat_otn_tx_pkt_bad_fcs = 1856
stat_reg StatReg.stat_otn_tx_stomped_fcs = 1864
stat_reg StatReg.stat_otn_tx_bad_code = 1872
stat_reg StatReg.stat_rx_rsfec_corrected_cw_inc = 4104
stat_reg StatReg.stat_rx_rsfec_uncorrected_cw_inc = 4112
stat_reg StatReg.stat_rx_rsfec_err_count0_inc = 4124
stat_reg StatReg.stat_rx_rsfec_err_count1_inc = 4132
stat_reg StatReg.stat_rx_rsfec_err_count2_inc = 4140
stat_reg StatReg.stat_rx_rsfec_err_count3_inc = 4148
stat_reg StatReg.stat_rx_rsfec_cw_inc = 4156

-- All of them.
abbrev pub stat_regs : List StatReg
stat_regs =
    StatReg.stat_tx_status ∷ StatReg.stat_rx_status ∷ StatReg.stat_status_1
    ∷ StatReg.stat_rx_block_lock ∷ StatReg.stat_rx_lane_sync ∷ StatReg.stat_rx_lane_sync_err
    ∷ StatReg.stat_rx_am_err ∷ StatReg.stat_rx_am_len_err ∷ StatReg.stat_rx_am_repeat_err
    ∷ StatReg.stat_rx_pcsl_demuxed ∷ StatReg.stat_rx_pcs_lane_num_1 ∷ StatReg.stat_rx_pcs_lane_num_2
    ∷ StatReg.stat_rx_pcs_lane_num_3 ∷ StatReg.stat_rx_pcs_lane_num_4 ∷ StatReg.stat_rx_bip_override
    ∷ StatReg.stat_tx_otn_status ∷ StatReg.stat_an_status ∷ StatReg.stat_an_ability
    ∷ StatReg.stat_an_link_ctl_1 ∷ StatReg.stat_lt_status_1 ∷ StatReg.stat_lt_status_2
    ∷ StatReg.stat_lt_status_3 ∷ StatReg.stat_lt_status_4 ∷ StatReg.stat_lt_coef_0
    ∷ StatReg.stat_lt_coef_1 ∷ StatReg.stat_an_link_ctl_2 ∷ StatReg.stat_rsfec_status
    ∷ StatReg.stat_rsfec_lane_mapping ∷ StatReg.stat_tx_otn_rsfec_status ∷ StatReg.tick
    ∷ StatReg.stat_cycle_count ∷ StatReg.stat_rx_bip_err_0 ∷ StatReg.stat_rx_bip_err_1
    ∷ StatReg.stat_rx_bip_err_2 ∷ StatReg.stat_rx_bip_err_3 ∷ StatReg.stat_rx_bip_err_4
    ∷ StatReg.stat_rx_bip_err_5 ∷ StatReg.stat_rx_bip_err_6 ∷ StatReg.stat_rx_bip_err_7
    ∷ StatReg.stat_rx_bip_err_8 ∷ StatReg.stat_rx_bip_err_9 ∷ StatReg.stat_rx_bip_err_10
    ∷ StatReg.stat_rx_bip_err_11 ∷ StatReg.stat_rx_bip_err_12 ∷ StatReg.stat_rx_bip_err_13
    ∷ StatReg.stat_rx_bip_err_14 ∷ StatReg.stat_rx_bip_err_15 ∷ StatReg.stat_rx_bip_err_16
    ∷ StatReg.stat_rx_bip_err_17 ∷ StatReg.stat_rx_bip_err_18 ∷ StatReg.stat_rx_bip_err_19
    ∷ StatReg.stat_rx_framing_err_0 ∷ StatReg.stat_rx_framing_err_1 ∷ StatReg.stat_rx_framing_err_2
    ∷ StatReg.stat_rx_framing_err_3 ∷ StatReg.stat_rx_framing_err_4 ∷ StatReg.stat_rx_framing_err_5
    ∷ StatReg.stat_rx_framing_err_6 ∷ StatReg.stat_rx_framing_err_7 ∷ StatReg.stat_rx_framing_err_8
    ∷ StatReg.stat_rx_framing_err_9 ∷ StatReg.stat_rx_framing_err_10
    ∷ StatReg.stat_rx_framing_err_11 ∷ StatReg.stat_rx_framing_err_12
    ∷ StatReg.stat_rx_framing_err_13 ∷ StatReg.stat_rx_framing_err_14
    ∷ StatReg.stat_rx_framing_err_15 ∷ StatReg.stat_rx_framing_err_16
    ∷ StatReg.stat_rx_framing_err_17 ∷ StatReg.stat_rx_framing_err_18
    ∷ StatReg.stat_rx_framing_err_19 ∷ StatReg.stat_rx_bad_code ∷ StatReg.stat_tx_frame_error
    ∷ StatReg.stat_tx_total_pkts ∷ StatReg.stat_tx_total_good_pkts ∷ StatReg.stat_tx_total_bytes
    ∷ StatReg.stat_tx_total_good_bytes ∷ StatReg.stat_tx_pkt_64_bytes
    ∷ StatReg.stat_tx_pkt_65_127_bytes ∷ StatReg.stat_tx_pkt_128_255_bytes
    ∷ StatReg.stat_tx_pkt_256_511_bytes ∷ StatReg.stat_tx_pkt_512_1023_bytes
    ∷ StatReg.stat_tx_pkt_1024_1518_bytes ∷ StatReg.stat_tx_pkt_1519_1522_bytes
    ∷ StatReg.stat_tx_pkt_1523_1548_bytes ∷ StatReg.stat_tx_pkt_1549_2047_bytes
    ∷ StatReg.stat_tx_pkt_2048_4095_bytes ∷ StatReg.stat_tx_pkt_4096_8191_bytes
    ∷ StatReg.stat_tx_pkt_8192_9215_bytes ∷ StatReg.stat_tx_pkt_large ∷ StatReg.stat_tx_pkt_small
    ∷ StatReg.stat_tx_bad_fcs ∷ StatReg.stat_tx_unicast ∷ StatReg.stat_tx_multicast
    ∷ StatReg.stat_tx_broadcast ∷ StatReg.stat_tx_vlan ∷ StatReg.stat_tx_pause
    ∷ StatReg.stat_tx_user_pause ∷ StatReg.stat_rx_total_pkts ∷ StatReg.stat_rx_total_good_pkts
    ∷ StatReg.stat_rx_total_bytes ∷ StatReg.stat_rx_total_good_bytes ∷ StatReg.stat_rx_pkt_64_bytes
    ∷ StatReg.stat_rx_pkt_65_127_bytes ∷ StatReg.stat_rx_pkt_128_255_bytes
    ∷ StatReg.stat_rx_pkt_256_511_bytes ∷ StatReg.stat_rx_pkt_512_1023_bytes
    ∷ StatReg.stat_rx_pkt_1024_1518_bytes ∷ StatReg.stat_rx_pkt_1519_1522_bytes
    ∷ StatReg.stat_rx_pkt_1523_1548_bytes ∷ StatReg.stat_rx_pkt_1549_2047_bytes
    ∷ StatReg.stat_rx_pkt_2048_4095_bytes ∷ StatReg.stat_rx_pkt_4096_8191_bytes
    ∷ StatReg.stat_rx_pkt_8192_9215_bytes ∷ StatReg.stat_rx_pkt_large ∷ StatReg.stat_rx_pkt_small
    ∷ StatReg.stat_rx_undersize ∷ StatReg.stat_rx_fragment ∷ StatReg.stat_rx_oversize
    ∷ StatReg.stat_rx_toolong ∷ StatReg.stat_rx_jabber ∷ StatReg.stat_rx_bad_fcs
    ∷ StatReg.stat_rx_pkt_bad_fcs ∷ StatReg.stat_rx_stomped_fcs ∷ StatReg.stat_rx_unicast
    ∷ StatReg.stat_rx_multicast ∷ StatReg.stat_rx_broadcast ∷ StatReg.stat_rx_vlan
    ∷ StatReg.stat_rx_pause ∷ StatReg.stat_rx_user_pause ∷ StatReg.stat_rx_inrangeerr
    ∷ StatReg.stat_rx_truncated ∷ StatReg.stat_otn_tx_jabber ∷ StatReg.stat_otn_tx_oversize
    ∷ StatReg.stat_otn_tx_undersize ∷ StatReg.stat_otn_tx_toolong ∷ StatReg.stat_otn_tx_fragment
    ∷ StatReg.stat_otn_tx_pkt_bad_fcs ∷ StatReg.stat_otn_tx_stomped_fcs
    ∷ StatReg.stat_otn_tx_bad_code ∷ StatReg.stat_rx_rsfec_corrected_cw_inc
    ∷ StatReg.stat_rx_rsfec_uncorrected_cw_inc ∷ StatReg.stat_rx_rsfec_err_count0_inc
    ∷ StatReg.stat_rx_rsfec_err_count1_inc ∷ StatReg.stat_rx_rsfec_err_count2_inc
    ∷ StatReg.stat_rx_rsfec_err_count3_inc ∷ StatReg.stat_rx_rsfec_cw_inc ∷ []
