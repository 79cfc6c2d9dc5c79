-- ===== src/Examples.antt =====
-- Concrete runs of the models, and instances of the theorems.
mod State
mod Sahara
mod Firehose
mod Gpt
mod Disk
mod Partitions
mod Jobs
mod Elf
mod Image
mod Dsp
mod Workflow
mod Session
